-- ===== src/System/Refinement.antt =====
-- The two programs on one database, against the account of a payment.
use payflow_payments_ops_pla.Base.{
  ℕ, ◌≡◌, refl, sym, ap, subst, subst₂, inl, inr, Option, Option-cases, ℤ, Bool, List, find,
}
use payflow_payments_ops_pla.Text.{Text, trim_space, to_upper}
use payflow_payments_ops_pla.Store.{Db, Env, Draw, Payment, Refund, ok}
use payflow_payments_ops_pla.Store.Faults.{clean}
use payflow_payments_ops_pla.Store.Keeps.{Keeps}
use payflow_payments_ops_pla.Payment.{has_id, same_key, normalize}
use payflow_payments_ops_pla.Payment
use payflow_payments_ops_pla.Payment.Safety as PaymentSafety
use payflow_payments_ops_pla.Payment.Runs as PaymentRuns
use payflow_payments_ops_pla.Refund
use payflow_payments_ops_pla.Refund.Safety as RefundSafety
use payflow_payments_ops_pla.Refund.Runs as RefundRuns
use payflow_payments_ops_pla.Refund.Bound.{RefundsCovered, total-none}
use payflow_payments_ops_pla.Base.{All_find}
use payflow_payments_ops_pla.System.Kept.{Kept, Reach-Kept}
use payflow_payments_ops_pla.Worker.Keeps.{outbox_tx-Keeps}
use payflow_payments_ops_pla.System.{Reach, empty_db}
use payflow_payments_ops_pla.System.Refunds.{Step-Covered, Reach-Covered, empty_db-Covered}
use payflow_payments_ops_pla.System.Account.{
  Account, Evolves, stays, account_in, account, payment-Evolves, refund-Evolves, settle-Evolves,
  settle_refund-Evolves,
}

module _ (pid : ℕ) (a : Option Account) where
  abbrev From : Db → Type 0
  From db = Evolves a (account pid db)

  abbrev FromIn : List Payment → List Refund → Type 0
  FromIn ps rs = Evolves a (account_in pid ps rs)

  settle_payment-From : (now k : ℕ) → Keeps From (Payment.settle_mock_tx now k)
  settle_payment-From now k = record {
    safe = PaymentSafety.settle_mock_tx-FaultSafe now k;
    keeps = λ db u db' run before.
        let cases = PaymentRuns.settle_mock_tx-cases now k db db' u run in
        elim cases.1 [
          | inl same ↦ subst₂ FromIn (sym same) (sym cases.0) before
          | inr marked ↦
              subst₂ FromIn (sym marked) (sym cases.0)
                (settle-Evolves pid a db.payments db.refunds before now k)
        ];
  }

  settle_refund-From : (env : Env) (now k : ℕ) → Keeps From (Refund.settle_mock_tx env now k)
  settle_refund-From env now k = record {
    safe = RefundSafety.settle_mock_tx-FaultSafe env now k;
    keeps = λ db u db' run before.
        let cases = RefundRuns.settle_mock_tx-cases env now k db db' u run in
        elim cases.1 [
          | inl same ↦ subst₂ FromIn (sym cases.0) (sym same) before
          | inr marked ↦
              subst₂ FromIn (sym cases.0) (sym marked)
                (settle_refund-Evolves pid a db.payments db.refunds before now k)
        ];
  }

  create_payment_tx-From :
      (env : Env) (draw : Draw) (tid : ℕ) (key : Text) (amount : ℤ) (cur : Text) (db db' : Db)
      (p : Payment) (created : Bool)
      → clean (Payment.create_tx env draw tid key amount cur) db ≡ (ok (p, created), db')
      → RefundsCovered db
      → From db
      → From db'
  create_payment_tx-From env draw tid key amount cur db db' p created run covered before =
      elim (Option-cases (find (same_key tid key) db.payments)) [
        | inl missing ↦
            let fresh =
              PaymentRuns.create_tx-fresh env draw tid key amount cur db p created db' missing
                run in
            let new = PaymentRuns.accepted env draw tid key amount cur db in
            subst₂ FromIn (sym fresh.4) (sym fresh.5) (
              payment-Evolves pid a db.payments db.refunds before new fresh.3 fresh.2 refl
                λ free. total-none pid db.payments db.refunds covered.owned free)
        | inr (q, found) ↦
            let again =
              PaymentRuns.create_tx-found env draw tid key amount cur db q p created db' found
                run in
            subst From (sym again.2) before
      ]

  create_refund_tx-From :
      (env : Env) (draw : Draw) (tid k : ℕ) (key : Text) (amount : ℤ) (db db' : Db)
      (x : Refund × Bool)
      → clean (Refund.create_tx env draw tid k key amount) db ≡ (ok x, db')
      → RefundsCovered db
      → From db
      → From db'
  create_refund_tx-From env draw tid k key amount db db' (r, created) run covered before =
      let (p, found, checked, inside) =
        RefundRuns.create_tx-success env draw tid k key amount db (r, created) db' run in
      let amt = Refund.asked amount p in
      let cur = to_upper env.upper_table (trim_space p.currency) in
      let check = RefundRuns.check_tx-passes tid k amount p db db tt checked in
      elim (Option-cases (find (Refund.same_key tid key) db.refunds)) [
        | inl missing ↦
            let fresh =
              RefundRuns.insert_tx-fresh env draw tid k key amt cur db r created db' missing
                inside in
            let fits =
              check.6 (All_find _ (has_id k) db.payments p covered.bounded found)
                (covered.covered k p found) in
            subst₂ FromIn (sym fresh.3) (sym fresh.4) (
              refund-Evolves pid a db.payments db.refunds before
                (Refund.new_refund env draw tid k key amt cur) p found check.2 refl check.4 fits)
        | inr (q, there) ↦
            let same =
              RefundRuns.insert_tx-found env draw tid k key amt cur db q r created db' there
                inside in
            subst From (sym same.2) before
      ]

  From-Kept : (env : Env) → Kept env RefundsCovered From
  From-Kept env = record {
    pays = λ draw tid key amount cur db db' x small run covered before.
        create_payment_tx-From env draw tid key amount cur db db' x.0 x.1 run covered before;
    refunds = λ draw tid k key amount db db' x run covered before.
        create_refund_tx-From env draw tid k key amount db db' x run covered before;
    settles_payment =
        λ now k db db' run covered before. (settle_payment-From now k).keeps db tt db' run before;
    settles_refund = λ now k db db' run covered before.
        (settle_refund-From env now k).keeps db tt db' run before;
    drains = λ locked now db db' x run covered before.
        (outbox_tx-Keeps From env now (settle_payment-From now) (settle_refund-From env now)
            (λ id db h. h) locked).keeps
          db x db' run before;
    besides = λ db db' same before.
        subst₂ FromIn (sym (ap (λ c. c.payments) same)) (sym (ap (λ c. c.refunds) same)) before;
  }

-- Whatever the two programs do to a database that they have brought about, by creates below 2 ^ 62
-- cents, refunds, settlements, outbox rounds and transactions on the other tables, with any failures of
-- the database, what the tables
-- hold of a payment evolves as an account: it is opened with an amount above 0, nothing reserved and
-- not settled, settled at most once, and only then are positive amounts reserved, up to the amount; it
-- never goes back, and its amount never changes.
pub account-Evolves :
    (env : Env) (before after : Db) (pid : ℕ)
    → Reach env empty_db before
    → Reach env before after
    → Evolves (account pid before) (account pid after)
account-Evolves env before after pid past future =
    (Reach-Kept (From-Kept pid (account pid before) env)
      (λ db db' s covered. Step-Covered s covered) (Reach-Covered empty_db-Covered past) stays
      future).1
