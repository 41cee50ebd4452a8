-- ===== src/Http/Payments.antt =====
-- payflow-app/internal/httpapi/payments.go, and the refunds of refunds_webhooks.go.
use payflow_payments_ops_pla.Base.{Option, some, [], ◌∷◌, map, pos, ℤ, if◌then◌else◌}
use payflow_payments_ops_pla.Text.{Text, is_empty, codes, trim_space}
use payflow_payments_ops_pla.Store.{
  Payment, Refund, LedgerEvent, LedgerType, payment_accepted, settlement_completed,
  refund_requested, Scope, payment_create, refund_create, Error, idempotency_mismatch,
  invalid_input, not_found, refund_amount_exceeded, payment_not_refundable,
}
use payflow_payments_ops_pla.Auth.{Context}
use payflow_payments_ops_pla.Ledger
use payflow_payments_ops_pla.Payment
use payflow_payments_ops_pla.Refund
use payflow_payments_ops_pla.Webhook.Query.{status_text}
use payflow_payments_ops_pla.Http.{
  HttpRequest, Cell, number, string, Row, Response, fail, json, json_list, json_with, created_code,
  Server, Codec, Api, pure, or_reply, call, reply_if, require_tenant_id, ◌>>=◌, ◌>>◌,
}

abbrev scope_text : Scope → Text
scope_text payment_create = codes "payment:create"
scope_text refund_create = codes "refund:create"

abbrev ledger_text : LedgerType → Text
ledger_text payment_accepted = codes "payment.accepted"
ledger_text settlement_completed = codes "settlement.completed"
ledger_text refund_requested = codes "refund.requested"
ledger_text LedgerType.refund_succeeded = codes "refund.succeeded"

-- paymentJSONView.
abbrev pub payment_row : Server → Payment → Row
payment_row s p =
    (codes "id", string (s.env.uuid_string p.id))
    ∷ (codes "tenant_id", string (s.env.uuid_string p.tenant_id))
    ∷ (codes "amount_cents", number (pos p.amount_cents))
    ∷ (codes "currency", string p.currency)
    ∷ (codes "status", string (status_text p.status))
    ∷ (codes "idempotency_key", string p.idempotency_key)
    ∷ (codes "idempotency_scope", string (scope_text p.idempotency_scope))
    ∷ (codes "created_at", string (s.codec.rfc3339_nano p.created_at))
    ∷ (codes "updated_at", string (s.codec.rfc3339_nano p.updated_at))
    ∷ []

-- One element of ledgerEventsJSON.
abbrev pub event_row : Server → LedgerEvent → Row
event_row s e =
    (codes "id", number (pos e.id))
    ∷ (codes "dedupe_key", string e.dedupe_key)
    ∷ (codes "event_type", string (ledger_text e.event_type))
    ∷ (codes "payload", Cell.payload e.payload)
    ∷ (codes "created_at", string (s.codec.rfc3339_nano e.created_at))
    ∷ []

create_error : Error → Response
create_error idempotency_mismatch = fail 409 (codes "idempotency_conflict")
create_error invalid_input = fail 400 (codes "invalid_payment")
create_error _ = fail 500 (codes "create_failed")

-- postPayment.
unfoldable pub post_payment : Server → Context → HttpRequest → Api Response
unfolding create_error
post_payment s ctx r = do
  tid ← require_tenant_id ctx
  let key = trim_space r.idempotency_key
  reply_if (is_empty key) (fail 400 (codes "missing_idempotency_key"))
  body ← or_reply (fail 400 (codes "invalid_json")) r.body
  (amount, currency) ← or_reply (fail 400 (codes "invalid_json")) (s.codec.decode_payment body)
  (p, created) ← call create_error (Payment.create s.env s.draw tid key amount currency)
  pure (json_with (created_code created) (payment_row s p))

load_error : Error → Response
load_error not_found = fail 404 (codes "not_found")
load_error _ = fail 500 (codes "load_failed")

-- getPayment, with the path's payment.
unfoldable pub get_payment : Server → Context → Text → Api Response
unfolding load_error
get_payment s ctx path_payment = do
  tid ← require_tenant_id ctx
  pid ← or_reply (fail 400 (codes "invalid_payment_id")) (s.env.uuid_parse path_payment)
  p ← call load_error (Payment.get tid pid)
  events ← call (λ e. fail 500 (codes "ledger_failed")) (Ledger.list_by_payment tid pid)
  pure (json_list (payment_row s p) (codes "ledger_events") (map (event_row s) events))

-- refundJSON.
abbrev pub refund_row : Server → Refund → Row
refund_row s r =
    (codes "id", string (s.env.uuid_string r.id))
    ∷ (codes "tenant_id", string (s.env.uuid_string r.tenant_id))
    ∷ (codes "payment_id", string (s.env.uuid_string r.payment_id))
    ∷ (codes "amount_cents", number (pos r.amount_cents))
    ∷ (codes "currency", string r.currency)
    ∷ (codes "status", string (status_text r.status))
    ∷ (codes "idempotency_key", string r.idempotency_key)
    ∷ (codes "idempotency_scope", string (scope_text r.idempotency_scope))
    ∷ (codes "created_at", string (s.codec.rfc3339 r.created_at))
    ∷ (codes "updated_at", string (s.codec.rfc3339 r.updated_at))
    ∷ []

refund_error : Error → Response
refund_error idempotency_mismatch = fail 409 (codes "idempotency_conflict")
refund_error invalid_input = fail 400 (codes "invalid_refund")
refund_error refund_amount_exceeded = fail 400 (codes "invalid_refund")
refund_error payment_not_refundable = fail 409 (codes "payment_not_refundable")
refund_error not_found = fail 404 (codes "not_found")
refund_error _ = fail 500 (codes "create_failed")

-- The amount in the body of postRefund: 0 if it is blank, `none` if it does not parse.
refund_amount : Codec → Text → Option ℤ
refund_amount codec raw =
    if is_empty (trim_space raw) then some (pos 0) else codec.decode_refund raw

-- postRefund, with the path's payment.
unfoldable pub post_refund : Server → Context → Text → HttpRequest → Api Response
unfolding refund_error refund_amount
post_refund s ctx path_payment r = do
  tid ← require_tenant_id ctx
  pid ← or_reply (fail 400 (codes "invalid_payment_id")) (s.env.uuid_parse path_payment)
  let key = trim_space r.idempotency_key
  reply_if (is_empty key) (fail 400 (codes "missing_idempotency_key"))
  raw ← or_reply (fail 400 (codes "invalid_body")) r.body
  amount ← or_reply (fail 400 (codes "invalid_json")) (refund_amount s.codec raw)
  (refund, created) ← call refund_error (Refund.create s.env s.draw tid pid key amount)
  pure (json_with (created_code created) (refund_row s refund))

-- getRefund, with the path's refund.
unfoldable pub get_refund : Server → Context → Text → Api Response
unfolding load_error
get_refund s ctx path_refund = do
  tid ← require_tenant_id ctx
  rid ← or_reply (fail 400 (codes "invalid_refund_id")) (s.env.uuid_parse path_refund)
  refund ← call load_error (Refund.get tid rid)
  pure (json (refund_row s refund))
