-- ===== src/Worker.antt =====
-- payflow-app/cmd/worker/main.go: the outbox first, then the queues.
pub mod Loop
pub mod Keeps
pub mod Settle
pub mod Outcome
pub mod Rows
pub mod Asks
pub mod Open
pub mod Succeeds
use payflow_payments_ops_pla.Base.{
  ℕ, Bool, true, false, not, ◌&&◌, Option, none, some, List, [], ◌∷◌, update_where, ⊤, ltb, ◌==◌,
  if◌then◌else◌,
}
use payflow_payments_ops_pla.Text.{Text}
use payflow_payments_ops_pla.Store.{
  Db, Env, OutboxRow, OutboxKind, payment_settlement, refund_settlement, unknown_kind, Object,
  Field, Value, payment_id, refund_id, num, str, flag, Error, bad_json, bad_uuid,
  unknown_outbox_kind, Tx, pure, raise, or_raise, query, exec, transact_if, ◌>>=◌, ◌>>◌,
}
use payflow_payments_ops_pla.Payment
use payflow_payments_ops_pla.Refund

-- outboxFollowup.
pub record Followup : Type 0 where
  pub payment_id : Option ℕ
  pub refund_id : Option ℕ

abbrev pub is_open : OutboxRow → Bool
is_open r = elim r.processed_at [ none ↦ true | some _ ↦ false ]

-- Of two rows the older; on a tie the one that was inserted first, which Postgres leaves open.
abbrev pub older : OutboxRow → Option OutboxRow → OutboxRow
older x none = x
older x (some y) = if ltb x.created_at y.created_at then x else y

-- WHERE processed_at IS NULL ORDER BY created_at ASC LIMIT 1 FOR UPDATE SKIP LOCKED. `locked` says
-- which rows other workers hold.
unfoldable pub oldest : (ℕ → Bool) → List OutboxRow → Option OutboxRow
oldest locked [] = none
oldest locked (x ∷ xs) =
    let rest = oldest locked xs in
    if is_open x && not (locked x.id) then some (older x rest) else rest

abbrev pub is_payment_id : Field → Bool
is_payment_id payment_id = true
is_payment_id _ = false

abbrev pub is_refund_id : Field → Bool
is_refund_id refund_id = true
is_refund_id _ = false

abbrev text_value : Value → Tx Text
text_value (str t) = pure t
text_value (num _) = raise bad_json
text_value (flag _) = raise bad_json

-- json.Unmarshal into a struct with one string field: the empty string if the field is missing.
text_field : (Field → Bool) → Object → Tx Text
text_field wanted [] = pure []
text_field wanted ((f, v) ∷ rest) =
    let later = text_field wanted rest in if wanted f then text_value v else later

-- The payload's UUID.
unfoldable pub parse_id : Env → (Field → Bool) → Object → Tx ℕ
unfolding text_field
parse_id env wanted payload = do
  text ← text_field wanted payload
  or_raise bad_uuid (env.uuid_parse text)

-- The `switch` on kind.
pub handle : Env → ℕ → OutboxKind → Object → Tx Followup
handle env now payment_settlement payload = do
  pid ← parse_id env is_payment_id payload
  Payment.settle_mock_tx now pid
  pure (record { payment_id = some pid; refund_id = none })
handle env now refund_settlement payload = do
  rid ← parse_id env is_refund_id payload
  Refund.settle_mock_tx env now rid
  pure (record { payment_id = none; refund_id = some rid })
handle env now unknown_kind payload = raise unknown_outbox_kind

-- UPDATE async_outbox SET processed_at = now() WHERE id = $1.
abbrev pub mark_processed : ℕ → ℕ → Db → Db
mark_processed now id db = record db {
  async_outbox =
      update_where (λ r. r.id == id) (λ r. record r { processed_at = some now }) db.async_outbox;
}

abbrev pub nothing : Followup
nothing = record { payment_id = none; refund_id = none }

-- An empty outbox returns before Commit.
process_row : Env → ℕ → Option OutboxRow → Tx (Followup × Bool)
process_row env now none = pure (nothing, false)
process_row env now (some row) = do
  done ← handle env now row.kind row.payload
  exec (mark_processed now row.id)
  pure (done, true)

-- The transaction of tryProcessOutbox.
unfoldable pub outbox_tx : Env → (ℕ → Bool) → ℕ → Tx (Followup × Bool)
unfolding process_row handle
outbox_tx env locked now = do
  row ← query λ db. oldest locked db.async_outbox
  process_row env now row

-- tryProcessOutbox.
unfoldable pub try_process_outbox : Env → (ℕ → Bool) → ℕ → Tx Followup
try_process_outbox env locked now = transact_if (outbox_tx env locked now)
