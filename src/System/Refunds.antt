-- ===== src/System/Refunds.antt =====
-- Refunds against payments, over every history of the two programs.
use payflow_payments_ops_pla.Base.{
  ⊤, ℕ, ◌<◌, ◌≤◌, ◌^◌, ◌≡◌, sym, ap, subst, subst₂, inl, inr, Option-cases, ℤ, pos_part, Bool, some,
  find, arith,
}
use payflow_payments_ops_pla.Text.{Text}
use payflow_payments_ops_pla.Store.{Db, Env, Draw, Payment, ok}
use payflow_payments_ops_pla.Store.Faults.{clean}
use payflow_payments_ops_pla.Store.Keeps.{Keeps}
use payflow_payments_ops_pla.Payment.{has_id, same_key, normalize}
use payflow_payments_ops_pla.Payment
use payflow_payments_ops_pla.Payment.Safety as PaymentSafety
use payflow_payments_ops_pla.Payment.Runs as PaymentRuns
use payflow_payments_ops_pla.Refund
use payflow_payments_ops_pla.Refund.Safety as RefundSafety
use payflow_payments_ops_pla.Refund.Runs as RefundRuns
use payflow_payments_ops_pla.Refund.Bound.{
  RefundsCovered, total, payment-Covered, settle_payment-Covered, settle_refund-Covered,
  clean-create_tx-Covered, Covered,
}
use payflow_payments_ops_pla.Worker.{outbox_tx}
use payflow_payments_ops_pla.System.Kept.{Kept, Step-Kept, Reach-Kept}
use payflow_payments_ops_pla.Worker.Keeps.{outbox_tx-Keeps}
use payflow_payments_ops_pla.System.{Step, Reach, empty_db}

settle_payment-Keeps : (now pid : ℕ) → Keeps RefundsCovered (Payment.settle_mock_tx now pid)
settle_payment-Keeps now pid = record {
  safe = PaymentSafety.settle_mock_tx-FaultSafe now pid;
  keeps = λ db u db' run before.
      let cases = PaymentRuns.settle_mock_tx-cases now pid db db' u run in
      elim cases.1 [
        | inl same ↦ subst₂ Covered (sym same) (sym cases.0) before
        | inr marked ↦
            subst₂ Covered (sym marked) (sym cases.0) (settle_payment-Covered now pid db before)
      ];
}

pub settle_refund-Keeps :
    (env : Env) (now rid : ℕ) → Keeps RefundsCovered (Refund.settle_mock_tx env now rid)
settle_refund-Keeps env now rid = record {
  safe = RefundSafety.settle_mock_tx-FaultSafe env now rid;
  keeps = λ db u db' run before.
      let cases = RefundRuns.settle_mock_tx-cases env now rid db db' u run in
      elim cases.1 [
        | inl same ↦ subst₂ Covered (sym cases.0) (sym same) before
        | inr marked ↦
            subst₂ Covered (sym cases.0) (sym marked) (settle_refund-Covered now rid db before)
      ];
}

-- A new payment keeps the refunds covered.
create_tx-Covered :
    (env : Env) (draw : Draw) (tid : ℕ) (key : Text) (amount : ℤ) (cur : Text) (db db' : Db)
    (p : Payment) (created : Bool)
    → pos_part amount < 2 ^ 62
    → clean (Payment.create_tx env draw tid key amount cur) db ≡ (ok (p, created), db')
    → RefundsCovered db
    → RefundsCovered db'
create_tx-Covered env draw tid key amount cur db db' p created small run before =
    elim (Option-cases (find (same_key tid key) db.payments)) [
      | inl missing ↦
          let fresh =
            PaymentRuns.create_tx-fresh env draw tid key amount cur db p created db' missing run in
          let new = PaymentRuns.accepted env draw tid key amount cur db in
          subst₂ Covered (sym fresh.4) (sym fresh.5)
            (payment-Covered db.payments db.refunds new fresh.3 small before)
      | inr (q, found) ↦
          let again =
            PaymentRuns.create_tx-found env draw tid key amount cur db q p created db' found run in
          subst RefundsCovered (sym again.2) before
    ]

pub outbox-Covered :
    (env : Env) (locked : ℕ → Bool) (now : ℕ) → Keeps RefundsCovered (outbox_tx env locked now)
outbox-Covered env locked now =
    outbox_tx-Keeps RefundsCovered env now (settle_payment-Keeps now) (settle_refund-Keeps env now)
      (λ id db h. h) locked

RefundsCovered-Kept : (env : Env) → Kept env (λ db. ⊤) RefundsCovered
RefundsCovered-Kept env = record {
  pays = λ draw tid key amount cur db db' x small run known before.
      create_tx-Covered env draw tid key amount cur db db' x.0 x.1 small run before;
  refunds = λ draw tid pid key amount db db' x run known before.
      clean-create_tx-Covered env draw tid pid key amount db db' x run before;
  settles_payment =
      λ now pid db db' run known before. (settle_payment-Keeps now pid).keeps db tt db' run before;
  settles_refund = λ now rid db db' run known before.
      (settle_refund-Keeps env now rid).keeps db tt db' run before;
  drains = λ locked now db db' x run known before.
      (outbox-Covered env locked now).keeps db x db' run before;
  besides = λ db db' same before.
      subst₂ Covered (sym (ap (λ c. c.payments) same)) (sym (ap (λ c. c.refunds) same)) before;
}

pub Step-Covered :
    {env : Env} {db db' : Db} → Step env db db' → RefundsCovered db → RefundsCovered db'
Step-Covered {env} s before = Step-Kept (RefundsCovered-Kept env) s tt before

pub Reach-Covered :
    {env : Env} {db db' : Db} → RefundsCovered db → Reach env db db' → RefundsCovered db'
Reach-Covered {env} start r =
    (Reach-Kept (RefundsCovered-Kept env) (λ db db' s known. tt) tt start r).1

pub empty_db-Covered : RefundsCovered empty_db
empty_db-Covered = record { covered = λ pid p h. absurd (ground arith); bounded = tt; owned = tt }

-- After any history of creates below 2 ^ 62 cents, refunds, settlements, outbox rounds and transactions
-- on the other tables, with any failures of the database, the pending and succeeded refunds of a payment do not exceed it.
pub refunds-le-payment :
    (env : Env) (db : Db) (pid : ℕ) (p : Payment)
    → Reach env empty_db db
    → find (has_id pid) db.payments ≡ some p
    → total pid db.refunds ≤ p.amount_cents
refunds-le-payment env db pid p r found = (Reach-Covered empty_db-Covered r).covered pid p found
