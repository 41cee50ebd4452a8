-- ===== src/Webhook.antt =====
-- payflow-app/internal/webhook/webhook.go: outbound notifications, deduplicated, signed, retried
-- a bounded number of times and then parked in the DLQ.
pub mod Process
pub mod Query
pub mod Once
pub mod Keeps
use payflow_payments_ops_pla.Base.{
  ℕ, zero, suc, ◌+◌, ◌*◌, ◌^◌, Bool, true, false, not, ◌&&◌, ◌||◌, Option, none, some, List, [],
  ◌∷◌, ◌++◌, find, any, select, update_where, take, sort_desc, ⊤, pos, ltb, leb, ◌==◌,
  if◌then◌else◌,
}
use payflow_payments_ops_pla.Text.{Text, text_eq, is_empty, codes, decimal}
use payflow_payments_ops_pla.Store.{
  Db, Env, Draw, Payment, Refund, Tenant, Delivery, Status, pending, succeeded, dlq, other,
  is_pending, is_succeeded, is_dlq, EventType, payment_settled, Object, type, amount_cents,
  currency, payment_id, refund_id, num, str, Result, ok, err, db_error, no_rows, bad_request,
  context_done, Tx, or_raise, stmt, query, exec, transact,
}
use payflow_payments_ops_pla.Payment.{has_id}
use payflow_payments_ops_pla.Refund.{has_refund_id}
use payflow_payments_ops_pla.Queue.{
  W, World, Request, Job, webhook_job, pure, raise, lift, ignore, ◌>>=◌, ◌>>◌,
}

-- net/http, crypto/hmac, the clock and the context, as ProcessDelivery meets them: `n` counts the
-- rounds of its loop.
pub data HttpReply : Type 0 where
  failed : Text → HttpReply
  status : ℕ → HttpReply

pub record Net : Type 0 where
  pub hmac_hex : Text → Text → Text
  pub url_accepted : Text → Bool
  pub unix_time : ℕ → ℕ
  pub reply : ℕ → HttpReply
  pub cancelled : ℕ → Bool

-- sign, and SignatureHex.
unfoldable pub sign : Net → Text → Text → Text → Text
sign net secret timestamp body = net.hmac_hex secret (timestamp ++ (codes "." ++ body))

abbrev pub has_delivery_id : ℕ → Delivery → Bool
has_delivery_id did d = d.id == did

abbrev pub tenant_of : ℕ → Db → Option Tenant
tenant_of tid db = find (λ t. t.id == tid) db.tenants

-- `!hookURL.Valid || hookURL.String == ""`, negated.
abbrev pub is_set : Option Text → Bool
is_set none = false
is_set (some t) = not (is_empty t)

abbrev pub get_text : Option Text → Text
get_text none = []
get_text (some t) = t

-- The row of UNIQUE (tenant_id, merchant_idempotency_key).
abbrev pub same_merchant_key : ℕ → Text → Delivery → Bool
same_merchant_key tid key d = d.tenant_id == tid && text_eq d.merchant_idempotency_key key

-- INSERT INTO webhook_deliveries … ON CONFLICT DO NOTHING RETURNING id.
unfoldable pub insert_delivery : Delivery → Db → Result (Option ℕ) × Db
insert_delivery d db =
    if any (same_merchant_key d.tenant_id d.merchant_idempotency_key) db.webhook_deliveries
    then (ok none, db)
    else if any (has_delivery_id d.id) db.webhook_deliveries
    then (err db_error, db)
    else (ok (some d.id), record db { webhook_deliveries = d ∷ db.webhook_deliveries })

abbrev pub settled_merchant_key : Env → ℕ → Text
settled_merchant_key env pid = codes "payflow/evt/payment.settled/" ++ env.uuid_string pid

abbrev pub refunded_merchant_key : Env → ℕ → Text
refunded_merchant_key env rid = codes "payflow/evt/refund.succeeded/" ++ env.uuid_string rid

abbrev pub settled_delivery : Env → Draw → Payment → Tenant → Delivery
settled_delivery env draw p t = record {
  id = draw.row_id;
  tenant_id = p.tenant_id;
  payment_id = some p.id;
  refund_id = none;
  event_type = payment_settled;
  merchant_idempotency_key = settled_merchant_key env p.id;
  target_url = get_text t.webhook_url;
  payload =
      (type, str (codes "payment.settled"))
      ∷ (payment_id, str (env.uuid_string p.id))
      ∷ (amount_cents, num (pos p.amount_cents))
      ∷ (currency, str p.currency)
      ∷ [];
  status = pending;
  attempt_count = 0;
  max_attempts = 5;
  last_error = [];
  created_at = draw.now;
  updated_at = draw.now;
}

abbrev pub refunded_delivery : Env → Draw → Refund → Tenant → Delivery
refunded_delivery env draw r t = record {
  id = draw.row_id;
  tenant_id = r.tenant_id;
  payment_id = some r.payment_id;
  refund_id = some r.id;
  event_type = EventType.refund_succeeded;
  merchant_idempotency_key = refunded_merchant_key env r.id;
  target_url = get_text t.webhook_url;
  payload =
      (type, str (codes "refund.succeeded"))
      ∷ (refund_id, str (env.uuid_string r.id))
      ∷ (payment_id, str (env.uuid_string r.payment_id))
      ∷ (amount_cents, num (pos r.amount_cents))
      ∷ (currency, str r.currency)
      ∷ [];
  status = pending;
  attempt_count = 0;
  max_attempts = 5;
  last_error = [];
  created_at = draw.now;
  updated_at = draw.now;
}

-- The row of the join that each Enqueue… begins with: one that succeeded, and its tenant.
unfoldable pub settled_row : ℕ → Db → Option (Payment × Tenant)
settled_row pid db = elim (find (λ p. has_id pid p && is_succeeded p.status) db.payments) [
  | none ↦ none
  | some p ↦ elim (tenant_of p.tenant_id db) [ none ↦ none | some t ↦ some (p, t) ]
]

unfoldable pub refunded_row : ℕ → Db → Option (Refund × Tenant)
refunded_row rid db = elim (find (λ r. has_refund_id rid r && is_succeeded r.status) db.refunds) [
  | none ↦ none
  | some r ↦ elim (tenant_of r.tenant_id db) [ none ↦ none | some t ↦ some (r, t) ]
]

abbrev pub has_hook : Tenant → Bool
has_hook t = is_set t.webhook_url && is_set t.webhook_signing_secret

-- From the insert on: publish only what this call inserted.
publish_inserted : (Job → W ⊤) → Option ℕ → W ⊤
publish_inserted publish none = pure tt
publish_inserted publish (some id) = publish (webhook_job id)

unfoldable pub enqueue : (Job → W ⊤) → Delivery → W ⊤
unfolding publish_inserted
enqueue publish d = do
  inserted ← lift (transact (stmt (insert_delivery d)))
  publish_inserted publish inserted

enqueue_settled_row : Env → Draw → (Job → W ⊤) → Option (Payment × Tenant) → W ⊤
enqueue_settled_row env draw publish none = pure tt
enqueue_settled_row env draw publish (some (p, t)) =
    if has_hook t then enqueue publish (settled_delivery env draw p t) else pure tt

-- EnqueuePaymentSettledIfNeeded.
unfoldable pub enqueue_payment_settled : Env → Draw → (Job → W ⊤) → ℕ → W ⊤
unfolding enqueue_settled_row
enqueue_payment_settled env draw publish pid = do
  row ← lift (query (settled_row pid))
  enqueue_settled_row env draw publish row

enqueue_refunded_row : Env → Draw → (Job → W ⊤) → Option (Refund × Tenant) → W ⊤
enqueue_refunded_row env draw publish none = pure tt
enqueue_refunded_row env draw publish (some (r, t)) =
    if has_hook t then enqueue publish (refunded_delivery env draw r t) else pure tt

-- EnqueueRefundSucceededIfNeeded.
unfoldable pub enqueue_refund_succeeded : Env → Draw → (Job → W ⊤) → ℕ → W ⊤
unfolding enqueue_refunded_row
enqueue_refund_succeeded env draw publish rid = do
  row ← lift (query (refunded_row rid))
  enqueue_refunded_row env draw publish row
