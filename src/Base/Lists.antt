-- ===== src/Base/Lists.antt =====
-- A table is a list of rows, the newest first: search, filter, update and sums by a Boolean test.
use payflow_payments_ops_pla.Base.Tests.{Bool-cases, leb, if◌then◌else◌}
use Prim.Native.Nat.{ℕ, zero, suc, ◌+◌}
use mathlib.Core.Path.{◌≡◌, refl, subst}
use mathlib.Core.Logic.{inl, inr}
use mathlib.Core.Bool.{Bool, true, false, ◌||◌}
use mathlib.Core.Option.{Option, none, some}
use mathlib.Core.List.{List, [], ◌∷◌}
use native.Mathlib.Omega.{arith}

module _ {ℓ} {A : Type ℓ} where
  abbrev pub length : List A → ℕ
  length [] = 0
  length (x ∷ xs) = suc (length xs)

  -- `SELECT … WHERE p LIMIT 1`: the first row that passes.
  abbrev pub find : (A → Bool) → List A → Option A
  find p [] = none
  find p (x ∷ xs) = if p x then some x else find p xs

  -- `EXISTS (SELECT … WHERE p)`.
  abbrev pub any : (A → Bool) → List A → Bool
  any p [] = false
  any p (x ∷ xs) = p x || any p xs

  -- `UPDATE … SET f WHERE p`.
  abbrev pub update_where : (A → Bool) → (A → A) → List A → List A
  update_where p f [] = []
  update_where p f (x ∷ xs) = (if p x then f x else x) ∷ update_where p f xs

  -- `SELECT … WHERE p`.
  abbrev pub select : (A → Bool) → List A → List A
  select p [] = []
  select p (x ∷ xs) = let rest = select p xs in if p x then x ∷ rest else rest

  -- `SELECT SUM(v) … WHERE p`.
  abbrev pub sum_where : (A → Bool) → (A → ℕ) → List A → ℕ
  sum_where p v [] = 0
  sum_where p v (x ∷ xs) = (if p x then v x else 0) + sum_where p v xs

  abbrev pub count_where : (A → Bool) → List A → ℕ
  count_where p [] = 0
  count_where p (x ∷ xs) = (if p x then 1 else 0) + count_where p xs

  abbrev pub take : ℕ → List A → List A
  take zero xs = []
  take (suc n) [] = []
  take (suc n) (x ∷ xs) = x ∷ take n xs

  -- `ORDER BY v DESC`: before the first row that is not newer.
  abbrev pub insert_desc : (A → ℕ) → A → List A → List A
  insert_desc v x [] = x ∷ []
  insert_desc v x (y ∷ ys) =
      let rest = insert_desc v x ys in if leb (v y) (v x) then x ∷ y ∷ ys else y ∷ rest

  abbrev pub sort_desc : (A → ℕ) → List A → List A
  sort_desc v [] = []
  sort_desc v (x ∷ xs) = insert_desc v x (sort_desc v xs)

  abbrev pub All {κ} : (A → Type κ) → List A → Type κ
  All P [] = Unit
  All P (x ∷ xs) = P x × All P xs

  pub find-any-false : (p : A → Bool) (xs : List A) → find p xs ≡ none → any p xs ≡ false
  find-any-false p [] h = refl
  find-any-false p (x ∷ xs) h = ground (arith, find-any-false p xs)

  pub any-false-find : (p : A → Bool) (xs : List A) → any p xs ≡ false → find p xs ≡ none
  any-false-find p [] h = refl
  any-false-find p (x ∷ xs) h = ground (arith, any-false-find p xs)

  pub find-some-any : (p : A → Bool) (xs : List A) (y : A) → find p xs ≡ some y → any p xs ≡ true
  find-some-any p [] y h = ground arith
  find-some-any p (x ∷ xs) y h = ground (arith, find-some-any p xs y)

  pub any-find-some :
      (p : A → Bool) (xs : List A) → any p xs ≡ true → (x : A) × (find p xs ≡ some x)
  any-find-some p [] h = absurd (ground arith)
  any-find-some p (x ∷ xs) h = elim (Bool-cases (p x)) [
    | inl hit ↦ (x, rw hit)
    | inr miss ↦ let (y, e) = any-find-some p xs (ground arith) in (y, rw miss e)
  ]

  -- What `find` returns passes the test.
  pub find_sound : (p : A → Bool) (xs : List A) (x : A) → find p xs ≡ some x → p x ≡ true
  find_sound p [] y h = ground arith
  find_sound p (x ∷ xs) y h = ground (arith, find_sound p xs y)

  pub All_find {κ} :
      (P : A → Type κ) (p : A → Bool) (xs : List A) (x : A) → All P xs → find p xs ≡ some x → P x
  All_find P p [] y a h = absurd (ground arith)
  All_find P p (x ∷ xs) y a h = elim (Bool-cases (p x)) [
    | inl hit ↦ let e : x ≡ y = ground arith in subst P e a.0
    | inr miss ↦ All_find P p xs y a.1 (ground arith)
  ]

  -- An update keeps what holds of every row, if the change keeps it on the rows it touches.
  pub All-update {κ} :
      (P : A → Type κ) (p : A → Bool) (f : A → A) (xs : List A)
      → ((x : A) → p x ≡ true → P x → P (f x))
      → All P xs
      → All P (update_where p f xs)
  All-update P p f [] keep a = tt
  All-update P p f (x ∷ xs) keep a = elim (Bool-cases (p x)) [
    | inl hit ↦ rw hit (keep x hit a.0, All-update P p f xs keep a.1)
    | inr miss ↦ rw miss (a.0, All-update P p f xs keep a.1)
  ]

  pub All-map {κ μ} :
      (P : A → Type κ) (Q : A → Type μ) (xs : List A) → ((x : A) → P x → Q x) → All P xs → All Q xs
  All-map P Q [] f a = tt
  All-map P Q (x ∷ xs) f a = (f x a.0, All-map P Q xs f a.1)

  pub update_where-none :
      (p : A → Bool) (f : A → A) (xs : List A) → any p xs ≡ false → update_where p f xs ≡ xs
  update_where-none p f [] h = refl
  update_where-none p f (x ∷ xs) h = ground (arith, update_where-none p f xs)

  -- A test that the change does not affect finds the changed row.
  pub find-update :
      (q p : A → Bool) (f : A → A) (xs : List A)
      → ((x : A) → q (f x) ≡ q x)
      → find q (update_where p f xs)
        ≡ elim (find q xs) [ none ↦ none | some x ↦ some (if p x then f x else x) ]
  find-update q p f [] h = refl
  find-update q p f (x ∷ xs) h = ground (arith, h x, find-update q p f xs h)

  pub any-update :
      (q p : A → Bool) (f : A → A) (xs : List A)
      → ((x : A) → q (f x) ≡ q x)
      → any q (update_where p f xs) ≡ any q xs
  any-update q p f [] h = refl
  any-update q p f (x ∷ xs) h = ground (arith, h x, any-update q p f xs h)

  pub sum_where-update :
      (q p : A → Bool) (v : A → ℕ) (f : A → A) (xs : List A)
      → ((x : A) → p x ≡ true → q (f x) ≡ q x)
      → ((x : A) → v (f x) ≡ v x)
      → sum_where q v (update_where p f xs) ≡ sum_where q v xs
  sum_where-update q p v f [] hq hv = refl
  sum_where-update q p v f (x ∷ xs) hq hv =
      ground (arith, hq x, hv x, sum_where-update q p v f xs hq hv)

  pub any-weaken :
      (q s : A → Bool) (xs : List A)
      → ((x : A) → s x ≡ false → q x ≡ false)
      → any s xs ≡ false
      → any q xs ≡ false
  any-weaken q s [] h e = refl
  any-weaken q s (x ∷ xs) h e =
      let first : s x ≡ false = ground arith in
      let rest : any s xs ≡ false = ground arith in
      ground (arith, h x first, any-weaken q s xs h rest)
