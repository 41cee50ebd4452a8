-- ===== src/Http/Deliveries.antt =====
-- The webhooks of payflow-app/internal/httpapi/refunds_webhooks.go.
use payflow_payments_ops_pla.Base.{
  ℕ, Bool, true, not, ◌&&◌, Option, none, some, [], ◌∷◌, ◌++◌, map, find, update_where, pos, ◌==◌,
}
use payflow_payments_ops_pla.Text.{Text, is_empty, codes, trim_space}
use payflow_payments_ops_pla.Store.{
  Db, Delivery, EventType, payment_settled, Status, pending, is_dlq, Error, no_rows, ok, err, Tx,
  stmt, exec, transact,
}
use payflow_payments_ops_pla.Auth.{Context}
use payflow_payments_ops_pla.Webhook.Query.{ListRow, status_text, list_deliveries, get_delivery}
use payflow_payments_ops_pla.Http.{
  HttpRequest, Cell, number, string, boolean, Row, Response, fail, json, json_list, Server, Api,
  pure, or_reply, call, call_publisher, reply_if, require_tenant_id, ◌>>=◌, ◌>>◌,
}

-- UPDATE tenants SET webhook_url = $2, webhook_signing_secret = $3 WHERE id = $1.
abbrev pub set_webhook : ℕ → Text → Text → Db → Db
set_webhook tid url secret db = record db {
  tenants =
      update_where (λ t. t.id == tid)
        (λ t. record t { webhook_url = some url; webhook_signing_secret = some secret }) db.tenants;
}

-- patchTenantWebhook.
unfoldable pub patch_tenant_webhook : Server → Context → HttpRequest → Api Response
patch_tenant_webhook s ctx r = do
  tid ← require_tenant_id ctx
  body ← or_reply (fail 400 (codes "invalid_json")) r.body
  (raw_url, secret) ← or_reply (fail 400 (codes "invalid_json")) (s.codec.decode_webhook body)
  let url = trim_space raw_url
  reply_if (is_empty url) (fail 400 (codes "missing_url"))
  call (λ e. fail 500 (codes "update_failed")) (transact (exec (set_webhook tid url secret)))
  pure (json ((codes "ok", boolean true) ∷ []))

abbrev event_text : EventType → Text
event_text payment_settled = codes "payment.settled"
event_text EventType.refund_succeeded = codes "refund.succeeded"

abbrev pub delivery_list_row : Server → ListRow → Row
delivery_list_row s row =
    (codes "id", string (s.env.uuid_string row.id))
    ∷ (codes "event_type", string (event_text row.event_type))
    ∷ (codes "status", string (status_text row.status))
    ∷ (codes "attempt_count", number (pos row.attempt_count))
    ∷ (codes "max_attempts", number (pos row.max_attempts))
    ∷ (codes "last_error", string row.last_error)
    ∷ (codes "created_at", string (s.codec.rfc3339 row.created_at))
    ∷ []

-- listWebhookDeliveries.
unfoldable pub list_webhook_deliveries : Server → Context → HttpRequest → Api Response
list_webhook_deliveries s ctx r = do
  tid ← require_tenant_id ctx
  rows ←
      call (λ e. fail 500 (codes "list_failed"))
        (list_deliveries tid (trim_space r.status_query) 50)
  pure (json_list [] (codes "deliveries") (map (delivery_list_row s) rows))

-- A field that is set only if the column is not NULL.
abbrev id_cell : Server → Text → Option ℕ → Row
id_cell s name none = []
id_cell s name (some id) = (name, string (s.env.uuid_string id)) ∷ []

abbrev pub delivery_row : Server → Delivery → Row
delivery_row s d =
    (codes "id", string (s.env.uuid_string d.id))
    ∷ (codes "tenant_id", string (s.env.uuid_string d.tenant_id))
    ∷ (codes "event_type", string (event_text d.event_type))
    ∷ (codes "merchant_idempotency_key", string d.merchant_idempotency_key)
    ∷ (codes "target_url", string d.target_url)
    ∷ (codes "payload", Cell.payload d.payload)
    ∷ (codes "status", string (status_text d.status))
    ∷ (codes "attempt_count", number (pos d.attempt_count))
    ∷ (codes "max_attempts", number (pos d.max_attempts))
    ∷ (codes "last_error", string d.last_error)
    ∷ (codes "created_at", string (s.codec.rfc3339 d.created_at))
    ∷ (codes "updated_at", string (s.codec.rfc3339 d.updated_at))
    ∷ (id_cell s (codes "payment_id") d.payment_id ++ id_cell s (codes "refund_id") d.refund_id)

load_error : Error → Response
load_error no_rows = fail 404 (codes "not_found")
load_error _ = fail 500 (codes "load_failed")

-- getWebhookDelivery, with the path's delivery.
unfoldable pub get_webhook_delivery : Server → Context → Text → Api Response
unfolding load_error
get_webhook_delivery s ctx path_delivery = do
  tid ← require_tenant_id ctx
  did ← or_reply (fail 400 (codes "invalid_id")) (s.env.uuid_parse path_delivery)
  d ← call load_error (get_delivery tid did)
  pure (json (delivery_row s d))

abbrev pub is_delivery_of : ℕ → ℕ → Delivery → Bool
is_delivery_of tid did d = d.id == did && d.tenant_id == tid

-- SELECT status FROM webhook_deliveries WHERE id = $1 AND tenant_id = $2.
unfoldable pub delivery_status : ℕ → ℕ → Tx Status
delivery_status tid did = stmt λ db. elim (find (is_delivery_of tid did) db.webhook_deliveries) [
  | none ↦ (err no_rows, db)
  | some d ↦ (ok d.status, db)
]

-- UPDATE webhook_deliveries … WHERE id = $1 AND tenant_id = $2 AND status = 'dlq'. The column
-- next_attempt_at is read nowhere.
abbrev pub reopened : ℕ → Delivery → Delivery
reopened now d = record d { status = pending; attempt_count = 0; last_error = []; updated_at = now }

abbrev pub reopen : ℕ → ℕ → ℕ → Db → Db
reopen now tid did db = record db {
  webhook_deliveries =
      update_where (λ d. is_delivery_of tid did d && is_dlq d.status) (reopened now)
        db.webhook_deliveries;
}

-- postWebhookDeliveryRetry, with the path's delivery.
unfoldable pub post_webhook_delivery_retry : Server → Context → Text → Api Response
unfolding load_error
post_webhook_delivery_retry s ctx path_delivery = do
  tid ← require_tenant_id ctx
  did ← or_reply (fail 400 (codes "invalid_id")) (s.env.uuid_parse path_delivery)
  state ← call load_error (delivery_status tid did)
  reply_if (not (is_dlq state)) (fail 400 (codes "not_dlq"))
  call (λ e. fail 500 (codes "update_failed")) (transact (exec (reopen s.draw.now tid did)))
  call_publisher (fail 503 (codes "enqueue_failed")) (s.publish did)
  pure (
      json
        ((codes "ok", boolean true) ∷ (codes "delivery_id", string (s.env.uuid_string did)) ∷ []))
