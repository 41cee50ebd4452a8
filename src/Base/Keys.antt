-- ===== src/Base/Keys.antt =====
-- A table with a primary key.
use payflow_payments_ops_pla.Base.Tests.{Bool-cases, ◌==◌, if◌then◌else◌}
use payflow_payments_ops_pla.Base.Lists.{find, any, update_where, find-some-any, any-update}
use Prim.Native.Nat.{ℕ}
use mathlib.Core.Path.{◌≡◌, refl, subst}
use mathlib.Core.Logic.{inl, inr}
use mathlib.Core.Bool.{Bool, false}
use mathlib.Core.Option.{some}
use mathlib.Core.List.{List, [], ◌∷◌}
use native.Mathlib.Omega.{arith}

module _ {A : Type 0} (key : A → ℕ) where
  abbrev pub has_key : ℕ → A → Bool
  has_key k x = key x == k

  -- No two rows share a key.
  abbrev pub Distinct : List A → Type 0
  Distinct [] = Unit
  Distinct (x ∷ xs) = (any (has_key (key x)) xs ≡ false) × Distinct xs

  pub update-Distinct :
      (p : A → Bool) (f : A → A) (xs : List A)
      → ((x : A) → key (f x) ≡ key x)
      → Distinct xs
      → Distinct (update_where p f xs)
  update-Distinct p f [] same distinct = tt
  update-Distinct p f (x ∷ xs) same (fresh, distinct) =
      let same_key : key (if p x then f x else x) ≡ key x = ground (arith, same x) in
      (
        rw (same_key, any-update (has_key (key x)) p f xs (λ y. rw (same y) refl)) fresh,
        update-Distinct p f xs same distinct,
      )

  -- What no row found by its key passes, no row passes.
  pub find-none-any :
      (q : A → Bool) (xs : List A)
      → Distinct xs
      → ((k : ℕ) (x : A) → find (has_key k) xs ≡ some x → q x ≡ false)
      → any q xs ≡ false
  find-none-any q [] distinct h = refl
  find-none-any q (x ∷ xs) (fresh, distinct) h =
      let first = h (key x) x (ground arith) in
      let rest = find-none-any q xs distinct λ k y found. elim (Bool-cases (key x == k)) [
        | inl same ↦
            let here : key x ≡ k = ground arith in
            let free = subst (λ i. any (has_key i) xs ≡ false) here fresh in
            let there = find-some-any (has_key k) xs y found in absurd (ground arith)
        | inr differ ↦ h k y (rw differ found)
      ] in
      ground arith
