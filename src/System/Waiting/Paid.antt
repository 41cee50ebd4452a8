-- ===== src/System/Waiting/Paid.antt =====
-- Whether the payment of a refund is settled (payflow-app/internal/refund/refund.go).
use payflow_payments_ops_pla.Base.{
  ℕ, ◌≡◌, refl, subst, inl, inr, Bool, true, false, Bool-cases, Option-cases, none, some, List, ◌∷◌,
  find, any, any-false-find, update_where, find-update, All, All-map, ◌==◌, arith,
}
use payflow_payments_ops_pla.Store.{Payment, Refund, is_succeeded}
use payflow_payments_ops_pla.Payment.{has_id, to_settle, settled}

abbrev pub is_paid : List Payment → ℕ → Bool
is_paid ps pid = elim (find (has_id pid) ps) [ none ↦ false | some p ↦ is_succeeded p.status ]

module _ (ps : List Payment) where
  -- A settled payment stays settled.
  pub settled_paid :
      (now k : ℕ) (rs : List Refund)
      → All (λ r. is_paid ps r.payment_id ≡ true) rs
      → All (λ r. is_paid (update_where (to_settle k) (settled now) ps) r.payment_id ≡ true) rs
  settled_paid now k rs before =
      All-map _ _ rs
        (λ r was.
          let updated =
            find-update (has_id r.payment_id) (to_settle k) (settled now) ps (λ q. refl) in
          elim (Option-cases (find (has_id r.payment_id) ps)) [
            | inl missing ↦ absurd (ground arith)
            | inr (q, there) ↦ ground (arith, updated, there)
          ])
        before

  pub more_paid :
      (p : Payment)
      → any (has_id p.id) ps ≡ false
      → (rs : List Refund) → All (λ r. is_paid ps r.payment_id ≡ true) rs
      → All (λ r. is_paid (p ∷ ps) r.payment_id ≡ true) rs
  more_paid p fresh rs before =
      All-map _ _ rs
        (λ r was. elim (Bool-cases (p.id == r.payment_id)) [
          | inl same ↦
              let here : p.id ≡ r.payment_id = ground arith in
              let free = subst (λ i. any (has_id i) ps ≡ false) here fresh in
              let missing = any-false-find (has_id r.payment_id) ps free in absurd (ground arith)
          | inr differ ↦ ground (arith, was)
        ])
        before
