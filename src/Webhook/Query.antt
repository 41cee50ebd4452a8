-- ===== src/Webhook/Query.antt =====
-- ListDeliveries and GetDelivery of payflow-app/internal/webhook/webhook.go.
use payflow_payments_ops_pla.Base.{
  ℕ, ◌||◌, ◌&&◌, Bool, List, find, select, take, sort_desc, map, ltb, ◌==◌, if◌then◌else◌,
}
use payflow_payments_ops_pla.Text.{Text, text_eq, is_empty, codes}
use payflow_payments_ops_pla.Store.{
  Delivery, Status, pending, succeeded, dlq, other, EventType, no_rows, Tx, query, or_raise, ◌>>=◌,
}

-- The text of the column.
abbrev pub status_text : Status → Text
status_text pending = codes "pending"
status_text succeeded = codes "succeeded"
status_text dlq = codes "dlq"
status_text (other t) = t

pub record ListRow : Type 0 where
  pub id : ℕ
  pub event_type : EventType
  pub status : Status
  pub attempt_count : ℕ
  pub max_attempts : ℕ
  pub last_error : Text
  pub created_at : ℕ

abbrev pub list_row : Delivery → ListRow
list_row d = record {
  id = d.id;
  event_type = d.event_type;
  status = d.status;
  attempt_count = d.attempt_count;
  max_attempts = d.max_attempts;
  last_error = d.last_error;
  created_at = d.created_at;
}

abbrev pub clamp_limit : ℕ → ℕ
clamp_limit limit = if limit == 0 || ltb 100 limit then 50 else limit

abbrev pub listed : ℕ → Text → Delivery → Bool
listed tid status d =
    d.tenant_id == tid && (is_empty status || text_eq (status_text d.status) status)

-- ListDeliveries.
unfoldable pub list_deliveries : ℕ → Text → ℕ → Tx (List ListRow)
list_deliveries tid status limit = query λ db. map list_row (
    take (clamp_limit limit)
      (sort_desc (λ d. d.created_at) (select (listed tid status) db.webhook_deliveries)))

-- GetDelivery.
unfoldable pub get_delivery : ℕ → ℕ → Tx Delivery
get_delivery tid did = do
  row ← query λ db. find (λ d. d.id == did && d.tenant_id == tid) db.webhook_deliveries
  or_raise no_rows row
