-- ===== src/System/Drain/Outbox.antt =====
-- One call of tryProcessOutbox (payflow-app/cmd/worker/main.go), when the database does not fail, on
-- tables that the two programs have brought about.
use payflow_payments_ops_pla.Base.{
  ℕ, ◌≡◌, ◌-◌, ap, ◌∙◌, inl, inr, Bool, true, false, Option-cases, some, List, find, All_find,
  arith,
}
use payflow_payments_ops_pla.Store.{Db, Env, Payment, OutboxRow, is_succeeded}
use payflow_payments_ops_pla.Store.Faults.{clean}
use payflow_payments_ops_pla.Payment.{has_id}
use payflow_payments_ops_pla.Payment.Settle as PaymentSettle
use payflow_payments_ops_pla.Refund.{has_refund_id}
use payflow_payments_ops_pla.Refund.Settle as RefundSettle
use payflow_payments_ops_pla.Worker.{oldest, try_process_outbox}
use payflow_payments_ops_pla.Worker.Rows.{has_row_id, closed, oldest-find}
use payflow_payments_ops_pla.Worker.Open.{
  count_open, oldest-none, oldest-is_open, count_open-closed,
}
use payflow_payments_ops_pla.Worker.Succeeds.{
  try_process_outbox-none, try_process_outbox-payment, try_process_outbox-refund,
}
use payflow_payments_ops_pla.System.Waiting.Paid.{is_paid}
use payflow_payments_ops_pla.System.Waiting.{
  OutboxComplete, RowAsks, finished, of_payment, of_refund,
}

is_paid-find :
    (ps : List Payment) (pid : ℕ)
    → is_paid ps pid ≡ true
    → (p : Payment) × (find (has_id pid) ps ≡ some p) × (is_succeeded p.status ≡ true)
is_paid-find ps pid h = elim (Option-cases (find (has_id pid) ps)) [
  | inl missing ↦ absurd (ground (arith, missing))
  | inr (p, there) ↦ (p, there, ground (arith, there))
]

module _ (env : Env) (parses : (id : ℕ) → env.uuid_parse (env.uuid_string id) ≡ some id) (now : ℕ)
    (db : Db) (locked : ℕ → Bool) (free : (id : ℕ) → locked id ≡ false)
    (complete : OutboxComplete env db) where
  -- The row is closed, and no other.
  abbrev Closes : OutboxRow → Type 0
  Closes row =
      (clean (try_process_outbox env locked now) db).1.async_outbox
      ≡ closed now row.id db.async_outbox

  asked-Closes :
      (row : OutboxRow) → oldest locked db.async_outbox ≡ some row → RowAsks env row → Closes row
  asked-Closes row first (finished done) =
      let opened = oldest-is_open locked free row db.async_outbox first in absurd (ground arith)
  asked-Closes row first (of_payment pid asked) =
      let (mid, run) = PaymentSettle.settle_mock_tx-ok now pid db in
      let kept = (PaymentSettle.settle_mock_tx-done now pid db mid tt run).0 in
      ap (λ x. x.1.async_outbox)
        (try_process_outbox-payment env parses now db row locked first pid mid asked run)
      ∙ ap (closed now row.id) kept
  asked-Closes row first (of_refund rid asked) =
      let (mid, run) = RefundSettle.settle_mock_tx-ok env now rid db λ r found.
        is_paid-find db.payments r.payment_id (
          All_find (λ q. is_paid db.payments q.payment_id ≡ true) (has_refund_id rid) db.refunds r
            complete.paid found) in
      let kept = RefundSettle.settle_mock_tx-async_outbox env now rid db mid tt run in
      ap (λ x. x.1.async_outbox)
        (try_process_outbox-refund env parses now db row locked first rid mid asked run)
      ∙ ap (closed now row.id) kept

  -- One open row less, while there are any.
  pub try_process_outbox-count_open :
      count_open (clean (try_process_outbox env locked now) db).1.async_outbox
      ≡ count_open db.async_outbox - 1
  try_process_outbox-count_open = elim (Option-cases (oldest locked db.async_outbox)) [
    | inl idle ↦
        let none_open = oldest-none locked free db.async_outbox idle in
        let same =
          ap (λ x. count_open x.1.async_outbox) (try_process_outbox-none env locked now db idle) in
        omega (arith, none_open, same)
    | inr (row, first) ↦
        let found = oldest-find locked row db.async_outbox complete.distinct first in
        let asks =
          All_find (RowAsks env) (has_row_id row.id) db.async_outbox row complete.sound found in
        let less =
          count_open-closed now row db.async_outbox complete.distinct found
            (oldest-is_open locked free row db.async_outbox first) in
        let same = ap count_open (asked-Closes row first asks) in omega (arith, less, same)
  ]
