-- ===== src/Worker/Succeeds.antt =====
-- tryProcessOutbox of payflow-app/cmd/worker/main.go on a row that asks for one settlement, when the
-- database does not fail.
use payflow_payments_ops_pla.Base.{
  ℕ, ◌≡◌, refl, sym, ◌∙◌, ap, subst, Bool, true, false, none, some, ⊤, arith,
}
use payflow_payments_ops_pla.Store.{
  Db, Env, OutboxRow, OutboxKind, payment_settlement, refund_settlement, unknown_kind, ok, stmt,
}
use payflow_payments_ops_pla.Store.Faults.{clean, bind-clean}
use payflow_payments_ops_pla.Store.Atomic.{commit_if, clean-transact_if}
use payflow_payments_ops_pla.Payment
use payflow_payments_ops_pla.Payment.Safety as PaymentSafety
use payflow_payments_ops_pla.Refund
use payflow_payments_ops_pla.Refund.Safety as RefundSafety
use payflow_payments_ops_pla.Worker.{
  Followup, is_payment_id, is_refund_id, parse_id, handle, oldest, mark_processed, process_row,
  outbox_tx, try_process_outbox, nothing,
}
use payflow_payments_ops_pla.Worker.Keeps.{parse_id-Keeps}
use payflow_payments_ops_pla.Worker.Settle.{outbox_tx-FaultSafe}
use payflow_payments_ops_pla.Worker.Asks.{
  is_payment_kind, is_refund_kind, asks_payment, asks_refund, parse_id-names, handle-FaultSafe,
}

payment_kind : (k : OutboxKind) → is_payment_kind k ≡ true → k ≡ payment_settlement
payment_kind payment_settlement h = refl
payment_kind refund_settlement h = absurd (ground arith)
payment_kind unknown_kind h = absurd (ground arith)

refund_kind : (k : OutboxKind) → is_refund_kind k ≡ true → k ≡ refund_settlement
refund_kind refund_settlement h = refl
refund_kind payment_settlement h = absurd (ground arith)
refund_kind unknown_kind h = absurd (ground arith)

module _ (env : Env) (parses : (id : ℕ) → env.uuid_parse (env.uuid_string id) ≡ some id) (now : ℕ)
    (db : Db) (row : OutboxRow) where
  handle-payment :
      (pid : ℕ) (mid : Db)
      → asks_payment env pid row ≡ true
      → clean (Payment.settle_mock_tx now pid) db ≡ (ok tt, mid)
      → clean (handle env now row.kind row.payload) db
        ≡ (ok (record { payment_id = some pid; refund_id = none }), mid)
  unfolding handle
  handle-payment pid mid asked run =
      let parsed =
        parse_id-names env is_payment_id pid row.payload db (parses pid) (ground arith) in
      let is_kind = payment_kind row.kind (ground arith) in
      rw is_kind (
        bind-clean (parse_id env is_payment_id row.payload) _ db pid db
          (parse_id-Keeps (λ d. ⊤) env is_payment_id row.payload).safe parsed
        ∙ bind-clean (Payment.settle_mock_tx now pid) _ db tt mid
            (PaymentSafety.settle_mock_tx-FaultSafe now pid) run)

  handle-refund :
      (rid : ℕ) (mid : Db)
      → asks_refund env rid row ≡ true
      → clean (Refund.settle_mock_tx env now rid) db ≡ (ok tt, mid)
      → clean (handle env now row.kind row.payload) db
        ≡ (ok (record { payment_id = none; refund_id = some rid }), mid)
  unfolding handle
  handle-refund rid mid asked run =
      let parsed = parse_id-names env is_refund_id rid row.payload db (parses rid) (ground arith) in
      let is_kind = refund_kind row.kind (ground arith) in
      rw is_kind (
        bind-clean (parse_id env is_refund_id row.payload) _ db rid db
          (parse_id-Keeps (λ d. ⊤) env is_refund_id row.payload).safe parsed
        ∙ bind-clean (Refund.settle_mock_tx env now rid) _ db tt mid
            (RefundSafety.settle_mock_tx-FaultSafe env now rid) run)

  marked :
      (done : Followup) (mid : Db)
      → clean (handle env now row.kind row.payload) db ≡ (ok done, mid)
      → clean (process_row env now (some row)) db ≡ (ok (done, true), mark_processed now row.id mid)
  unfolding process_row stmt
  marked done mid handled =
      bind-clean (handle env now row.kind row.payload) _ db done mid (handle-FaultSafe env now row)
        handled

  round_of :
      (locked : ℕ → Bool) (done : Followup) (mid : Db)
      → oldest locked db.async_outbox ≡ some row
      → clean (handle env now row.kind row.payload) db ≡ (ok done, mid)
      → clean (try_process_outbox env locked now) db ≡ (ok done, mark_processed now row.id mid)
  unfolding try_process_outbox outbox_tx stmt
  round_of locked done mid first handled =
      let reached =
        subst
          (λ o. clean (process_row env now o) db ≡ (ok (done, true), mark_processed now row.id mid))
          (sym first) (marked done mid handled) in
      clean-transact_if (outbox_tx env locked now) db (outbox_tx-FaultSafe env locked now)
      ∙ ap (commit_if db) reached

  module _ (locked : ℕ → Bool) (first : oldest locked db.async_outbox ≡ some row) where
    pub try_process_outbox-payment :
        (pid : ℕ) (mid : Db)
        → asks_payment env pid row ≡ true
        → clean (Payment.settle_mock_tx now pid) db ≡ (ok tt, mid)
        → clean (try_process_outbox env locked now) db
          ≡ (ok (record { payment_id = some pid; refund_id = none }), mark_processed now row.id mid)
    try_process_outbox-payment pid mid asked run =
        round_of locked _ mid first (handle-payment pid mid asked run)

    pub try_process_outbox-refund :
        (rid : ℕ) (mid : Db)
        → asks_refund env rid row ≡ true
        → clean (Refund.settle_mock_tx env now rid) db ≡ (ok tt, mid)
        → clean (try_process_outbox env locked now) db
          ≡ (ok (record { payment_id = none; refund_id = some rid }), mark_processed now row.id mid)
    try_process_outbox-refund rid mid asked run =
        round_of locked _ mid first (handle-refund rid mid asked run)

-- Without an open row a round changes nothing.
pub try_process_outbox-none :
    (env : Env) (locked : ℕ → Bool) (now : ℕ) (db : Db)
    → oldest locked db.async_outbox ≡ none
    → clean (try_process_outbox env locked now) db ≡ (ok nothing, db)
unfolding try_process_outbox outbox_tx process_row stmt
try_process_outbox-none env locked now db idle =
    let reached =
      subst (λ o. clean (process_row env now o) db ≡ (ok (nothing, false), db)) (sym idle) refl in
    clean-transact_if (outbox_tx env locked now) db (outbox_tx-FaultSafe env locked now)
    ∙ ap (commit_if db) reached
