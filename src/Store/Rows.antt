-- ===== src/Store/Rows.antt =====
-- The rows of each table. A UUID is a number, a time is a number, SQL NULL is `none`.
use payflow_payments_ops_pla.Base.{ℕ, List, Bool, true, false, Option, ℤ}
use payflow_payments_ops_pla.Text.{Text}

-- The TEXT column `status`. The program writes the first three; `other` is any other text.
pub data Status : Type 0 where
  pending succeeded dlq : Status
  other : Text → Status

-- `status = 'pending'`, and so on.
abbrev pub is_pending : Status → Bool
is_pending pending = true
is_pending _ = false

abbrev pub is_succeeded : Status → Bool
is_succeeded succeeded = true
is_succeeded _ = false

abbrev pub is_dlq : Status → Bool
is_dlq dlq = true
is_dlq _ = false

-- `status IN ('pending', 'succeeded')`.
abbrev pub is_reserving : Status → Bool
is_reserving pending = true
is_reserving succeeded = true
is_reserving _ = false

-- The names of the JSON fields that the program writes.
pub data Field : Type 0 where
  type payment_id refund_id amount_cents currency mock name key_prefix key_id : Field
  email user_id reason path : Field

pub data Value : Type 0 where
  num : ℤ → Value
  str : Text → Value
  flag : Bool → Value

-- A JSONB value: every object that the program writes is flat.
abbrev pub Object : Type 0
Object = List (Field × Value)

-- ScopePaymentCreate and ScopeRefundCreate.
pub data Scope : Type 0 where
  payment_create refund_create : Scope

abbrev pub scope_eq : Scope → Scope → Bool
scope_eq payment_create payment_create = true
scope_eq refund_create refund_create = true
scope_eq _ _ = false

-- "payment.accepted", "settlement.completed", "refund.requested", "refund.succeeded".
pub data LedgerType : Type 0 where
  payment_accepted settlement_completed refund_requested refund_succeeded : LedgerType

pub record Tenant : Type 0 where
  pub id : ℕ
  pub name : Text
  pub webhook_url : Option Text
  pub webhook_signing_secret : Option Text

pub record ApiKey : Type 0 where
  pub id : ℕ
  pub tenant_id : ℕ
  pub key_hash : Text
  pub key_prefix : Text
  pub created_at : ℕ
  pub revoked_at : Option ℕ

pub record DashboardUser : Type 0 where
  pub id : ℕ
  pub tenant_id : ℕ
  pub email : Text
  pub password_hash : Text

pub record Payment : Type 0 where
  pub id : ℕ
  pub tenant_id : ℕ
  pub amount_cents : ℕ
  pub currency : Text
  pub status : Status
  pub idempotency_key : Text
  pub idempotency_scope : Scope
  pub request_hash : Text
  pub created_at : ℕ
  pub updated_at : ℕ

pub record LedgerEvent : Type 0 where
  pub id : ℕ
  pub tenant_id : ℕ
  pub payment_id : ℕ
  pub dedupe_key : Text
  pub event_type : LedgerType
  pub payload : Object
  pub created_at : ℕ

pub record Refund : Type 0 where
  pub id : ℕ
  pub tenant_id : ℕ
  pub payment_id : ℕ
  pub amount_cents : ℕ
  pub currency : Text
  pub status : Status
  pub idempotency_key : Text
  pub idempotency_scope : Scope
  pub request_hash : Text
  pub created_at : ℕ
  pub updated_at : ℕ

-- The column `kind`; the CHECK constraint of the table admits the first two.
pub data OutboxKind : Type 0 where
  payment_settlement refund_settlement unknown_kind : OutboxKind

pub record OutboxRow : Type 0 where
  pub id : ℕ
  pub kind : OutboxKind
  pub payload : Object
  pub created_at : ℕ
  pub processed_at : Option ℕ

-- EventPaymentSettled and EventRefundSucceeded.
pub data EventType : Type 0 where
  payment_settled refund_succeeded : EventType

pub record Delivery : Type 0 where
  pub id : ℕ
  pub tenant_id : ℕ
  pub payment_id : Option ℕ
  pub refund_id : Option ℕ
  pub event_type : EventType
  pub merchant_idempotency_key : Text
  pub target_url : Text
  pub payload : Object
  pub status : Status
  pub attempt_count : ℕ
  pub max_attempts : ℕ
  pub last_error : Text
  pub created_at : ℕ
  pub updated_at : ℕ

pub data AuditType : Type 0 where
  tenant_created api_key_issued api_key_revoked api_key_auth_failure : AuditType
  payment_created refund_created : AuditType
  dashboard_user_created dashboard_login_success dashboard_login_failure : AuditType

pub record AuditEvent : Type 0 where
  pub tenant_id : Option ℕ
  pub event_type : AuditType
  pub metadata : Object

-- The committed tables. `next_event` is the sequence behind ledger_events.id.
pub record Db : Type 0 where
  pub tenants : List Tenant
  pub api_keys : List ApiKey
  pub dashboard_users : List DashboardUser
  pub payments : List Payment
  pub ledger_events : List LedgerEvent
  pub next_event : ℕ
  pub refunds : List Refund
  pub async_outbox : List OutboxRow
  pub webhook_deliveries : List Delivery
  pub audit_events : List AuditEvent

-- What the program calls and the repository does not hold: the Unicode case tables beyond ASCII,
-- crypto/sha256, encoding/json, the text of a JSONB value in Postgres, and google/uuid.
pub record Env : Type 0 where
  pub upper_table : ℕ → ℕ
  pub lower_table : ℕ → ℕ
  pub sha256_hex : Text → Text
  pub json_marshal : Object → Text
  pub jsonb_text : Object → Text
  pub uuid_string : ℕ → Text
  pub uuid_parse : Text → Option ℕ

-- What the database supplies while a statement runs: gen_random_uuid() for the row that the
-- handler inserts and for the outbox row, and now().
pub record Draw : Type 0 where
  pub row_id : ℕ
  pub outbox_id : ℕ
  pub now : ℕ
