-- ===== src/Worker/Outcome.antt =====
-- tryProcessOutbox of payflow-app/cmd/worker/main.go: what a round leaves behind, whatever calls of
-- the database fail.
use payflow_payments_ops_pla.Base.{
  ℕ, ◌≡◌, refl, sym, ◌∙◌, subst, inl, inr, ◌⊎◌, Bool, true, false, Option-cases, none, some, List,
  ◌==◌, find, update_where, ⊤, arith,
}
use payflow_payments_ops_pla.Store.{
  Db, Env, Payment, OutboxRow, OutboxKind, payment_settlement, refund_settlement, unknown_kind,
  is_pending, Error, db_error, Result, ok, err, TxState, stmt,
}
use payflow_payments_ops_pla.Store.Faults.{clean, at, bind-ok}
use payflow_payments_ops_pla.Store.Atomic.{Atomic-cases, clean-transact_if, commit_if-cases}
use payflow_payments_ops_pla.Payment.{has_id}
use payflow_payments_ops_pla.Payment
use payflow_payments_ops_pla.Payment.Settle as PaymentSettle
use payflow_payments_ops_pla.Payment.Safety as PaymentSafety
use payflow_payments_ops_pla.Refund
use payflow_payments_ops_pla.Refund.Settle as RefundSettle
use payflow_payments_ops_pla.Refund.Safety as RefundSafety
use payflow_payments_ops_pla.Worker.{
  Followup, nothing, is_payment_id, is_refund_id, parse_id, handle, oldest, process_row, outbox_tx,
  try_process_outbox,
}
use payflow_payments_ops_pla.Worker.Keeps.{parse_id-Keeps}
use payflow_payments_ops_pla.Worker.Asks.{parse_id-same, handle-FaultSafe}
use payflow_payments_ops_pla.Worker.Settle.{outbox_tx-FaultSafe, try_process_outbox-Atomic}

module _ (env : Env) (now : ℕ) (old : Db) where
  -- The settlement that a row asks for was made between `old` and `mid`, and is reported as `done`.
  pub data Settled (row : OutboxRow) (mid : Db) (done : Followup) : Type 0 where
    for_payment :
        (pid : ℕ)
        → row.kind ≡ payment_settlement
        → clean (parse_id env is_payment_id row.payload) old ≡ (ok pid, old)
        → clean (Payment.settle_mock_tx now pid) old ≡ (ok tt, mid)
        → ((p : Payment) → find (has_id pid) mid.payments ≡ some p → is_pending p.status ≡ false)
        → done ≡ record { payment_id = some pid; refund_id = none }
        → Settled row mid done
    for_refund :
        (rid : ℕ)
        → row.kind ≡ refund_settlement
        → clean (parse_id env is_refund_id row.payload) old ≡ (ok rid, old)
        → clean (Refund.settle_mock_tx env now rid) old ≡ (ok tt, mid)
        → done ≡ record { payment_id = none; refund_id = some rid }
        → Settled row mid done

  -- The outbox with the row processed.
  abbrev closed : OutboxRow → Db → Db
  closed row mid = record mid {
    async_outbox =
        update_where (λ r. r.id == row.id) (λ r. record r { processed_at = some now })
          old.async_outbox;
  }

  -- The oldest open row that no other worker holds was settled, and was closed with it.
  pub record Processed (locked : ℕ → Bool) (done : Followup) (new : Db) : Type 0 where
    pub row : OutboxRow
    pub mid : Db
    pub first : oldest locked old.async_outbox ≡ some row
    pub settled : Settled row mid done
    pub marked : new ≡ closed row mid

  -- The four ways in which a round ends.
  pub data Outcome (locked : ℕ → Bool) (out : Result Followup × TxState) : Type 0 where
    processed :
        (done : Followup) → Processed locked done out.1.db → out.0 ≡ ok done → Outcome locked out
    unsure :
        (done : Followup)
        → Processed locked done out.1.db
        → out.0 ≡ err db_error
        → Outcome locked out
    idle :
        oldest locked old.async_outbox ≡ none
        → out.0 ≡ ok nothing
        → out.1.db ≡ old
        → Outcome locked out
    refused :
        (e : Error)
        → ((clean (try_process_outbox env locked now) old).0 ≡ err e) ⊎ (e ≡ db_error)
        → out.0 ≡ err e
        → out.1.db ≡ old
        → Outcome locked out

  handle-Settled :
      (kind : OutboxKind) (row : OutboxRow) (done : Followup) (mid : Db)
      → row.kind ≡ kind
      → clean (handle env now kind row.payload) old ≡ (ok done, mid)
      → Settled row mid done × (mid.async_outbox ≡ old.async_outbox)
  unfolding handle
  handle-Settled payment_settlement row done mid is_kind run =
      let (pid, start, parsed, rest) =
        bind-ok (parse_id env is_payment_id row.payload) _ old done mid
          (parse_id-Keeps (λ d. ⊤) env is_payment_id row.payload).safe run in
      let (u, after, settled, last) =
        bind-ok (Payment.settle_mock_tx now pid) _ start done mid
          (PaymentSafety.settle_mock_tx-FaultSafe now pid) rest in
      let same = parse_id-same env is_payment_id row.payload old start pid parsed in
      let ends : after ≡ mid = ground (arith, last) in
      let settles : clean (Payment.settle_mock_tx now pid) old ≡ (ok tt, mid) =
        subst (λ d. clean (Payment.settle_mock_tx now pid) old ≡ (ok tt, d)) ends
          (subst (λ d. clean (Payment.settle_mock_tx now pid) d ≡ (ok tt, after)) same settled) in
      let facts = PaymentSettle.settle_mock_tx-done now pid old mid tt settles in
      (
        for_payment pid is_kind
            (subst (λ d. clean (parse_id env is_payment_id row.payload) old ≡ (ok pid, d)) same
              parsed)
            settles facts.1 (ground (arith, last)),
        facts.0,
      )
  handle-Settled refund_settlement row done mid is_kind run =
      let (rid, start, parsed, rest) =
        bind-ok (parse_id env is_refund_id row.payload) _ old done mid
          (parse_id-Keeps (λ d. ⊤) env is_refund_id row.payload).safe run in
      let (u, after, settled, last) =
        bind-ok (Refund.settle_mock_tx env now rid) _ start done mid
          (RefundSafety.settle_mock_tx-FaultSafe env now rid) rest in
      let same = parse_id-same env is_refund_id row.payload old start rid parsed in
      let ends : after ≡ mid = ground (arith, last) in
      let settles : clean (Refund.settle_mock_tx env now rid) old ≡ (ok tt, mid) =
        subst (λ d. clean (Refund.settle_mock_tx env now rid) old ≡ (ok tt, d)) ends
          (subst (λ d. clean (Refund.settle_mock_tx env now rid) d ≡ (ok tt, after)) same
            settled) in
      (
        for_refund rid is_kind
            (subst (λ d. clean (parse_id env is_refund_id row.payload) old ≡ (ok rid, d)) same
              parsed)
            settles (ground (arith, last)),
        RefundSettle.settle_mock_tx-async_outbox env now rid old mid tt settles,
      )
  handle-Settled unknown_kind row done mid is_kind run = absurd (ground arith)

  process_row-none :
      (done : Followup) (b : Bool) (new : Db)
      → clean (process_row env now none) old ≡ (ok (done, b), new)
      → (done ≡ nothing) × (new ≡ old) × (b ≡ false)
  unfolding process_row
  process_row-none done b new run = ground arith

  process_row-some :
      (row : OutboxRow) (done : Followup) (b : Bool) (new : Db)
      → clean (process_row env now (some row)) old ≡ (ok (done, b), new)
      → (mid : Db) × (new ≡ closed row mid) × (b ≡ true) × Settled row mid done
  unfolding process_row stmt
  process_row-some row done b new run =
      let (d, mid, handled, rest) =
        bind-ok (handle env now row.kind row.payload) _ old (done, b) new
          (handle-FaultSafe env now row) run in
      let (settled, kept) = handle-Settled row.kind row d mid refl handled in
      let same : d ≡ done = ground (arith, rest) in
      (mid, ground (arith, rest, kept), ground (arith, rest), subst (Settled row mid) same settled)

  module _ (locked : ℕ → Bool) where
    outbox_tx-cases :
        (done : Followup) (b : Bool) (new : Db)
        → clean (outbox_tx env locked now) old ≡ (ok (done, b), new)
        → Processed locked done new × (b ≡ true)
          ⊎ ((oldest locked old.async_outbox ≡ none) × (done ≡ nothing) × (new ≡ old) × (b ≡ false))
    unfolding outbox_tx stmt
    outbox_tx-cases done b new run = elim (Option-cases (oldest locked old.async_outbox)) [
      | inl empty ↦
          let ends =
            process_row-none done b new
              (subst (λ o. clean (process_row env now o) old ≡ (ok (done, b), new)) empty run) in
          inr (empty, ends.0, ends.1, ends.2)
      | inr (row, first) ↦
          let (mid, marked, commits, settled) =
            process_row-some row done b new
              (subst (λ o. clean (process_row env now o) old ≡ (ok (done, b), new)) first run) in
          inl (
            record { row = row; mid = mid; first = first; settled = settled; marked = marked },
            commits,
          )
    ]

    reply-Outcome :
        (done : Followup) (out : Result Followup × TxState)
        → clean (try_process_outbox env locked now) old ≡ (ok done, out.1.db)
        → (out.0 ≡ ok done) ⊎ (out.0 ≡ err db_error)
        → Outcome locked out
    unfolding try_process_outbox
    reply-Outcome done out run reply =
        elim (commit_if-cases old (clean (outbox_tx env locked now) old) done out.1.db (
          sym
            (clean-transact_if (outbox_tx env locked now) old (outbox_tx-FaultSafe env locked now))
          ∙ run)) [
            | inl kept ↦ elim (outbox_tx-cases done true out.1.db kept) [
              | inl (did, _) ↦ elim reply [
                | inl said ↦ processed done did said
                | inr lost ↦ unsure done did lost
              ]
              | inr (_, _, _, wrong) ↦ absurd (ground arith)
            ]
            | inr (mid, dropped, same) ↦ elim (outbox_tx-cases done false mid dropped) [
              | inl (_, wrong) ↦ absurd (ground arith)
              | inr (empty, is_nothing, _, _) ↦ elim reply [
                | inl said ↦ idle empty (ground (arith, said, is_nothing)) same
                | inr lost ↦ refused db_error (inr refl) lost same
              ]
            ]
          ]

-- Whatever calls of the database fail, a round of the outbox ends in one of four ways: SettleMockTx
-- was run to its end for the payment or refund that is named by the oldest open row that no other
-- worker holds, a payment is not pending after it, nothing else changed but that the rows with this
-- row's id are processed now, and the round reports this payment or refund; or the same, and it
-- reports a database error; or there is no such row, nothing changed, and it reports neither; or
-- nothing changed, and it reports a database error or the error that it reports where no call fails.
pub try_process_outbox-Outcome :
    (env : Env) (locked : ℕ → Bool) (now : ℕ) (db : Db) (fs : List Bool)
    → Outcome env now db locked (try_process_outbox env locked now (at db fs))
try_process_outbox-Outcome env locked now db fs =
    let out = try_process_outbox env locked now (at db fs) in
    elim (Atomic-cases db (clean (try_process_outbox env locked now) db) out
      (try_process_outbox-Atomic env locked now db fs)) [
        | inl (done, run, reply) ↦ reply-Outcome env now db locked done out run reply
        | inr (e, reply, same, why) ↦ refused e why reply same
      ]
