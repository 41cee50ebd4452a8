-- ===== src/System/Waiting/Steps.antt =====
-- The steps of the two programs, and the rows of the outbox for what waits to be settled.
use payflow_payments_ops_pla.Base.{
  ℕ, ◌≡◌, sym, ap, ◌∙◌, subst, subst₂, inl, inr, Bool, Option-cases, ℤ, some, find, any, All_find,
  true, ◌∷◌, arith,
}
use payflow_payments_ops_pla.Text.{Text, text_eq_refl, trim_space, to_upper}
use payflow_payments_ops_pla.Store.{Db, Env, Draw, Payment, Refund, OutboxRow, ok}
use payflow_payments_ops_pla.Store.Faults.{clean}
use payflow_payments_ops_pla.Payment.{has_id, same_key, normalize}
use payflow_payments_ops_pla.Payment
use payflow_payments_ops_pla.Payment.Runs as PaymentRuns
use payflow_payments_ops_pla.Payment.Settle as PaymentSettle
use payflow_payments_ops_pla.Refund.{has_refund_id}
use payflow_payments_ops_pla.Refund
use payflow_payments_ops_pla.Refund.Runs as RefundRuns
use payflow_payments_ops_pla.Refund.Settle as RefundSettle
use payflow_payments_ops_pla.Refund.Bound.{RefundsCovered}
use payflow_payments_ops_pla.Worker.{mark_processed}
use payflow_payments_ops_pla.Worker.Rows.{has_row_id}
use payflow_payments_ops_pla.Worker.Asks.{
  asks_payment, asks_refund, Handled, for_payment, for_refund,
}
use payflow_payments_ops_pla.System.Waiting.Paid.{is_paid}
use payflow_payments_ops_pla.System.Waiting.{
  Complete, OutboxComplete, settle_payment-Complete, settle_refund-Complete, payment-Complete,
  refund-Complete, close-Complete,
}

module _ (env : Env) where
  pub settled_payment-Complete :
      (now pid : ℕ) (db db' : Db)
      → clean (Payment.settle_mock_tx now pid) db ≡ (ok tt, db')
      → OutboxComplete env db
      → OutboxComplete env db'
  settled_payment-Complete now pid db db' run before =
      let cases = PaymentRuns.settle_mock_tx-cases now pid db db' tt run in
      let done = PaymentSettle.settle_mock_tx-done now pid db db' tt run in
      subst₂ (λ rs rows. Complete env db'.payments rs rows) (sym cases.0) (sym done.0)
        (elim cases.1 [
          | inl same ↦ subst (λ ps. Complete env ps db.refunds db.async_outbox) (sym same) before
          | inr marked ↦
              subst (λ ps. Complete env ps db.refunds db.async_outbox) (sym marked)
                (settle_payment-Complete env db.payments db.refunds db.async_outbox before now pid)
        ])

  owned :
      (rid : ℕ) (r : Refund) (db : Db)
      → RefundsCovered db
      → find (has_refund_id rid) db.refunds ≡ some r
      → any (has_id r.payment_id) db.payments ≡ true
  owned rid r db covered found =
      All_find (λ q. any (has_id q.payment_id) db.payments ≡ true) (has_refund_id rid) db.refunds r
        covered.owned found

  pub settled_refund-Complete :
      (now rid : ℕ) (db db' : Db)
      → clean (Refund.settle_mock_tx env now rid) db ≡ (ok tt, db')
      → RefundsCovered db
      → OutboxComplete env db
      → OutboxComplete env db'
  settled_refund-Complete now rid db db' run covered before =
      let cases = RefundRuns.settle_mock_tx-cases env now rid db db' tt run in
      let done =
        RefundSettle.settle_mock_tx-done env now rid db db' tt run (λ r. owned rid r db covered) in
      subst₂ (λ ps rows. Complete env ps db'.refunds rows) (sym cases.0) (sym done.0)
        (elim cases.1 [
          | inl same ↦ subst (λ rs. Complete env db.payments rs db.async_outbox) (sym same) before
          | inr marked ↦
              subst (λ rs. Complete env db.payments rs db.async_outbox) (sym marked)
                (settle_refund-Complete env db.payments db.refunds db.async_outbox before now rid)
        ])

  pub create_payment_tx-Complete :
      (draw : Draw) (tid : ℕ) (key : Text) (amount : ℤ) (cur : Text) (db db' : Db)
      (x : Payment × Bool)
      → clean (Payment.create_tx env draw tid key amount cur) db ≡ (ok x, db')
      → OutboxComplete env db
      → OutboxComplete env db'
  create_payment_tx-Complete draw tid key amount cur db db' (p, created) run before =
      elim (Option-cases (find (same_key tid key) db.payments)) [
        | inl missing ↦
            let fresh =
              PaymentRuns.create_tx-fresh env draw tid key amount cur db p created db' missing
                run in
            let row = PaymentRuns.opened env draw tid key amount cur db in
            let new = PaymentRuns.accepted env draw tid key amount cur db in
            let asked : asks_payment env new.id row ≡ true =
              text_eq_refl (env.uuid_string draw.row_id) in
            subst (λ rows. Complete env db'.payments db'.refunds rows) (sym fresh.6)
              (subst₂ (λ ps rs. Complete env ps rs (row ∷ db.async_outbox)) (sym fresh.4)
                (sym fresh.5)
                (payment-Complete env db.payments db.refunds db.async_outbox before row fresh.7 new
                  fresh.3 asked))
        | inr (q, there) ↦
            let again =
              PaymentRuns.create_tx-found env draw tid key amount cur db q p created db' there
                run in
            subst (OutboxComplete env) (sym again.2) before
      ]

  pub create_refund_tx-Complete :
      (draw : Draw) (tid pid : ℕ) (key : Text) (amount : ℤ) (db db' : Db) (x : Refund × Bool)
      → clean (Refund.create_tx env draw tid pid key amount) db ≡ (ok x, db')
      → OutboxComplete env db
      → OutboxComplete env db'
  create_refund_tx-Complete draw tid pid key amount db db' (r, created) run before =
      let (p, found, checked, inside) =
        RefundRuns.create_tx-success env draw tid pid key amount db (r, created) db' run in
      let amt = Refund.asked amount p in
      let cur = to_upper env.upper_table (trim_space p.currency) in
      elim (Option-cases (find (Refund.same_key tid key) db.refunds)) [
        | inl missing ↦
            let fresh =
              RefundRuns.insert_tx-fresh env draw tid pid key amt cur db r created db' missing
                inside in
            let row = RefundRuns.opened env draw tid pid key amt cur db in
            let new = Refund.new_refund env draw tid pid key amt cur in
            let settled = (RefundRuns.check_tx-passes tid pid amount p db db tt checked).2 in
            let now_paid : is_paid db.payments pid ≡ true = ground (arith, found, settled) in
            let asked : asks_refund env new.id row ≡ true =
              text_eq_refl (env.uuid_string draw.row_id) in
            subst (λ rows. Complete env db'.payments db'.refunds rows) (sym fresh.5)
              (subst₂ (λ ps rs. Complete env ps rs (row ∷ db.async_outbox)) (sym fresh.3)
                (sym fresh.4)
                (refund-Complete env db.payments db.refunds db.async_outbox before row fresh.6 new
                  fresh.2 now_paid asked))
        | inr (q, there) ↦
            let same =
              RefundRuns.insert_tx-found env draw tid pid key amt cur db q r created db' there
                inside in
            subst (OutboxComplete env) (sym same.2) before
      ]

  -- A round of the outbox closes a row after what it asks for is settled.
  pub mark_processed-Complete :
      (now : ℕ) (db mid : Db) (row : OutboxRow)
      → find (has_row_id row.id) db.async_outbox ≡ some row
      → Handled env now db mid row
      → RefundsCovered db
      → OutboxComplete env db
      → OutboxComplete env (mark_processed now row.id mid)
  mark_processed-Complete now db mid row there (for_payment pid only none_else run) covered before =
      let after = settled_payment-Complete now pid db mid run before in
      let done = PaymentSettle.settle_mock_tx-done now pid db mid tt run in
      close-Complete env mid.payments mid.refunds mid.async_outbox after now row
        (ap (find (has_row_id row.id)) done.0 ∙ there)
        (λ k p asked found.
          done.1 p (subst (λ i. find (has_id i) mid.payments ≡ some p) (only k asked) found))
        (λ k r asked found. let not_asked = none_else k in absurd (ground arith))
  mark_processed-Complete now db mid row there (for_refund rid only none_else run) covered before =
      let after = settled_refund-Complete now rid db mid run covered before in
      let done =
        RefundSettle.settle_mock_tx-done env now rid db mid tt run (λ r. owned rid r db covered) in
      close-Complete env mid.payments mid.refunds mid.async_outbox after now row
        (ap (find (has_row_id row.id)) done.0 ∙ there)
        (λ k p asked found. let not_asked = none_else k in absurd (ground arith))
        (λ k r asked found.
          done.1 r (subst (λ i. find (has_refund_id i) mid.refunds ≡ some r) (only k asked) found))
