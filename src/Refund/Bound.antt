-- ===== src/Refund/Bound.antt =====
-- The money that refunds take out of a payment (payflow-app/internal/refund/refund.go).
use payflow_payments_ops_pla.Base.{
  ℕ, ◌+◌, ◌<◌, ◌≤◌, ◌^◌, ◌≡◌, refl, sym, ◌∙◌, subst, subst₂, inl, inr, Bool-cases, Option-cases, ℤ,
  Bool, true, false, some, ◌∷◌, [], List, find, any, sum_where, All, All-map, All_find, All-update,
  find-update, any-update, sum_where-update, find-some-any, ◌==◌, arith,
}
use payflow_payments_ops_pla.Text.{Text, trim_space, to_upper}
use payflow_payments_ops_pla.Store.{Db, Env, Draw, Payment, Refund, ok}
use payflow_payments_ops_pla.Store.Faults.{clean}
use payflow_payments_ops_pla.Payment.{has_id, to_settle, settled}
use payflow_payments_ops_pla.Payment
use payflow_payments_ops_pla.Refund.{
  same_key, reserves, asked, new_refund, create_tx, to_refund, refunded, mark_refunded,
}
use payflow_payments_ops_pla.Refund.Runs.{
  check_tx-passes, insert_tx-fresh, insert_tx-found, create_tx-success,
}

abbrev pub total : ℕ → List Refund → ℕ
total pid rs = sum_where (reserves pid) (λ r. r.amount_cents) rs

-- The refunds of a payment that are pending or succeeded do not exceed it, and every refund is of a
-- payment that is there. Amounts stay below 2 ^ 62, where a sum of two is an int64.
pub record Covered (ps : List Payment) (rs : List Refund) : Type 0 where
  pub covered :
      (pid : ℕ) (p : Payment) → find (has_id pid) ps ≡ some p → total pid rs ≤ p.amount_cents
  pub bounded : All (λ p. p.amount_cents < 2 ^ 62) ps
  pub owned : All (λ r. any (has_id r.payment_id) ps ≡ true) rs

abbrev pub RefundsCovered : Db → Type 0
RefundsCovered db = Covered db.payments db.refunds

-- A payment that is not there has no refunds.
pub total-none :
    (pid : ℕ) (ps : List Payment) (rs : List Refund)
    → All (λ r. any (has_id r.payment_id) ps ≡ true) rs
    → any (has_id pid) ps ≡ false
    → total pid rs ≡ 0
total-none pid ps [] h e = refl
total-none pid ps (r ∷ rs) h e = elim (Bool-cases (r.payment_id == pid)) [
  | inl same ↦
      let here : r.payment_id ≡ pid = ground arith in
      let there = subst (λ x. any (has_id x) ps ≡ true) here h.0 in absurd (ground arith)
  | inr differ ↦ rw (differ, total-none pid ps rs h.1 e) (omega arith)
]

insert-Covered :
    (ps : List Payment) (rs : List Refund) (r : Refund) (p : Payment)
    → find (has_id r.payment_id) ps ≡ some p
    → total r.payment_id rs + r.amount_cents ≤ p.amount_cents
    → Covered ps rs
    → Covered ps (r ∷ rs)
insert-Covered ps rs r p found fits before = record {
  covered = λ pid q at_pid. elim (Bool-cases (r.payment_id == pid)) [
    | inl hit ↦
        let here : r.payment_id ≡ pid = ground arith in
        let fits_pid = subst (λ x. total x rs + r.amount_cents ≤ p.amount_cents) here fits in
        let found_pid = subst (λ x. find (has_id x) ps ≡ some p) here found in ground arith
    | inr miss ↦ rw miss (omega (arith, before.covered pid q at_pid))
  ];
  bounded = before.bounded;
  owned = (find-some-any (has_id r.payment_id) ps p found, before.owned);
}

-- A refund that Create takes keeps the refunds covered.
pub clean-create_tx-Covered :
    (env : Env) (draw : Draw) (tid pid : ℕ) (key : Text) (amount : ℤ) (db db' : Db)
    (x : Refund × Bool)
    → clean (create_tx env draw tid pid key amount) db ≡ (ok x, db')
    → RefundsCovered db
    → RefundsCovered db'
clean-create_tx-Covered env draw tid pid key amount db db' (r, created) run before =
    let (p, found, checked, inside) =
      create_tx-success env draw tid pid key amount db (r, created) db' run in
    let amt = asked amount p in
    let cur = to_upper env.upper_table (trim_space p.currency) in
    let check = check_tx-passes tid pid amount p db db tt checked in
    elim (Option-cases (find (same_key tid key) db.refunds)) [
      | inl missing ↦
          let fresh =
            insert_tx-fresh env draw tid pid key amt cur db r created db' missing inside in
          let fits =
            check.6 (All_find _ (has_id pid) db.payments p before.bounded found)
              (before.covered pid p found) in
          let after =
            insert-Covered db.payments db.refunds (new_refund env draw tid pid key amt cur) p found
              fits before in
          subst₂ Covered (sym fresh.3) (sym fresh.4) after
      | inr (q, there) ↦
          let same = insert_tx-found env draw tid pid key amt cur db q r created db' there inside in
          subst RefundsCovered (sym same.2) before
    ]

-- A new payment with a fresh id, and the two settlements.
pub payment-Covered :
    (ps : List Payment) (rs : List Refund) (p : Payment)
    → any (has_id p.id) ps ≡ false
    → p.amount_cents < 2 ^ 62
    → Covered ps rs
    → Covered (p ∷ ps) rs
payment-Covered ps rs p fresh small before = record {
  covered = λ pid q at_pid. elim (Bool-cases (p.id == pid)) [
    | inl hit ↦
        let here : p.id ≡ pid = ground arith in
        let free = subst (λ x. any (has_id x) ps ≡ false) here fresh in
        omega (arith, total-none pid ps rs before.owned free)
    | inr miss ↦ before.covered pid q (ground arith)
  ];
  bounded = (small, before.bounded);
  owned = All-map _ _ rs (λ r there. ground arith) before.owned;
}

pub settle_payment-Covered :
    (now pid : ℕ) (db : Db) → RefundsCovered db → RefundsCovered (Payment.mark_succeeded now pid db)
settle_payment-Covered now pid db before = record {
  covered = λ k q at_k. elim (Option-cases (find (has_id k) db.payments)) [
    | inl missing ↦ absurd (
        ground
          (arith, find-update (has_id k) (to_settle pid) (settled now) db.payments (λ p. refl)))
    | inr (p, found) ↦ ground (
      arith,
      find-update (has_id k) (to_settle pid) (settled now) db.payments (λ p. refl),
      before.covered k p found,
    )
  ];
  bounded = All-update _ (to_settle pid) (settled now) db.payments (λ p _ h. h) before.bounded;
  owned =
      All-map _ _ db.refunds
        (λ r there.
          any-update (has_id r.payment_id) (to_settle pid) (settled now) db.payments (λ p. refl)
          ∙ there)
        before.owned;
}

pub settle_refund-Covered :
    (now rid : ℕ) (db : Db) → RefundsCovered db → RefundsCovered (mark_refunded now rid db)
settle_refund-Covered now rid db before = record {
  covered = λ pid p at_pid.
      rw
        (sum_where-update (reserves pid) (to_refund rid) (λ r. r.amount_cents) (refunded now)
          db.refunds (λ r h. ground arith) (λ r. refl))
        (before.covered pid p at_pid);
  bounded = before.bounded;
  owned = All-update _ (to_refund rid) (refunded now) db.refunds (λ r _ h. h) before.owned;
}
