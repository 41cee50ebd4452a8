-- ===== src/Http/Reads.antt =====
-- What a read of payflow-app/internal/httpapi depends on.
pub mod Handlers
use payflow_payments_ops_pla.Base.{
  ℕ, ◌≡◌, refl, sym, ◌∙◌, ap, subst, inl, inr, Bool, true, false, Bool-cases, Option, none, some,
  List, [], ◌∷◌, select, find, arith, if◌then◌else◌,
}
use payflow_payments_ops_pla.Store.{Db, Error, Result, ok, err, Tx, TxState, stmt, query, or_raise}
use payflow_payments_ops_pla.Store.Faults.{at}
use payflow_payments_ops_pla.Store as Tx
use payflow_payments_ops_pla.Queue.{World}
use payflow_payments_ops_pla.Http.{
  Response, Reply, answered, going, Api, pure, reply, or_reply, reply_of, call, and_then, ◌>>=◌,
  ◌>>◌,
}
use payflow_payments_ops_pla.Http.Isolation.{rows_of}

pub find-select :
    {A : Type 0} (q p : A → Bool) (xs : List A)
    → ((x : A) → p x ≡ true → q x ≡ true)
    → find p (select q xs) ≡ find p xs
find-select q p [] implies = refl
find-select q p (x ∷ xs) implies = ground (arith, implies x, find-select q p xs implies)

pub select-select :
    {A : Type 0} (q p : A → Bool) (xs : List A)
    → ((x : A) → p x ≡ true → q x ≡ true)
    → select p (select q xs) ≡ select p xs
select-select q p [] implies = refl
select-select q p (x ∷ xs) implies = ground (arith, implies x, select-select q p xs implies)

-- Two states of the database with the same rows of tenant `v`, which fail alike.
pub record Alike (v : ℕ) (s t : TxState) : Type 0 where
  pub faults : s.faults ≡ t.faults
  pub rows : rows_of v s.db ≡ rows_of v t.db

-- Over two such states a program yields the same, and leaves two such states.
pub record SameTx {A : Type 0} (v : ℕ) (m : Tx A) : Type 0 where
  pub same : (s t : TxState) → Alike v s t → ((m s).0 ≡ (m t).0) × Alike v (m s).1 (m t).1

pub record SameApi {A : Type 0} (v : ℕ) (m : Api A) : Type 0 where
  pub same :
      (w x : World)
      → Alike v w.store x.store
      → ((m w).0 ≡ (m x).0) × Alike v (m w).1.store (m x).1.store

module _ (v : ℕ) where
  query-at :
      {A : Type 0} (f : Db → A) (db db' : Db) (fs : List Bool)
      → f db ≡ f db'
      → rows_of v db ≡ rows_of v db'
      → ((query f (at db fs)).0 ≡ (query f (at db' fs)).0)
        × Alike v (query f (at db fs)).1 (query f (at db' fs)).1
  unfolding stmt
  query-at f db db' [] e rows = (ap (λ a. ok a) e, record { faults = refl; rows = rows })
  query-at f db db' (true ∷ fs) e rows = (refl, record { faults = refl; rows = rows })
  query-at f db db' (false ∷ fs) e rows = (ap (λ a. ok a) e, record { faults = refl; rows = rows })

  pub query-SameTx :
      {A : Type 0} (f : Db → A)
      → ((db db' : Db) → rows_of v db ≡ rows_of v db' → f db ≡ f db')
      → SameTx v (query f)
  query-SameTx f blind = record {
    same = λ s t h.
        subst
          (λ fs.
            ((query f s).0 ≡ (query f (at t.db fs)).0)
            × Alike v (query f s).1 (query f (at t.db fs)).1)
          h.faults (query-at f s.db t.db s.faults (blind s.db t.db h.rows) h.rows);
  }

  pub pure-SameTx : {A : Type 0} (a : A) → SameTx v (Tx.pure a)
  pure-SameTx a = record { same = λ s t h. (refl, h) }

  pub or_raise-SameTx : {A : Type 0} (e : Error) (o : Option A) → SameTx v (or_raise e o)
  or_raise-SameTx e none = record { same = λ s t h. (refl, h) }
  or_raise-SameTx e (some a) = record { same = λ s t h. (refl, h) }

  then-Tx :
      {A B : Type 0} (f : A → Tx B) (r r' : Result A) (s t : TxState)
      → ((a : A) → SameTx v (f a))
      → r ≡ r'
      → Alike v s t
      → ((Tx.and_then (r, s) f).0 ≡ (Tx.and_then (r', t) f).0)
        × Alike v (Tx.and_then (r, s) f).1 (Tx.and_then (r', t) f).1
  then-Tx f (ok a) r' s t hf e h =
      subst
        (λ x. ((f a s).0 ≡ (Tx.and_then (x, t) f).0) × Alike v (f a s).1 (Tx.and_then (x, t) f).1) e
        ((hf a).same s t h)
  then-Tx f (err e') r' s t hf e h =
      subst (λ x. (err e' ≡ (Tx.and_then (x, t) f).0) × Alike v s (Tx.and_then (x, t) f).1) e
        (refl, h)

  pub bind-SameTx :
      {A B : Type 0} (m : Tx A) (f : A → Tx B)
      → SameTx v m
      → ((a : A) → SameTx v (f a))
      → SameTx v (Tx.◌>>=◌ m f)
  bind-SameTx m f hm hf = record {
    same = λ s t h.
        let (e, rest) = hm.same s t h in then-Tx f (m s).0 (m t).0 (m s).1 (m t).1 hf e rest;
  }

  pub pure-SameApi : {A : Type 0} (a : A) → SameApi v (pure a)
  pure-SameApi a = record { same = λ w x h. (refl, h) }

  pub or_reply-SameApi : {A : Type 0} (r : Response) (o : Option A) → SameApi v (or_reply r o)
  or_reply-SameApi r none = record { same = λ w x h. (refl, h) }
  or_reply-SameApi r (some a) = pure-SameApi a

  pub call-SameApi :
      {A : Type 0} (f : Error → Response) (m : Tx A) → SameTx v m → SameApi v (call f m)
  call-SameApi f m hm = record {
    same = λ w x h. let (e, rest) = hm.same w.store x.store h in (ap (reply_of f) e, rest);
  }

  then-Api :
      {A B : Type 0} (f : A → Api B) (r r' : Reply A) (w x : World)
      → ((a : A) → SameApi v (f a))
      → r ≡ r'
      → Alike v w.store x.store
      → ((and_then (r, w) f).0 ≡ (and_then (r', x) f).0)
        × Alike v (and_then (r, w) f).1.store (and_then (r', x) f).1.store
  then-Api f (going a) r' w x hf e h =
      subst
        (λ y.
          ((f a w).0 ≡ (and_then (y, x) f).0) × Alike v (f a w).1.store (and_then (y, x) f).1.store)
        e ((hf a).same w x h)
  then-Api f (answered r) r' w x hf e h =
      subst
        (λ y. (answered r ≡ (and_then (y, x) f).0) × Alike v w.store (and_then (y, x) f).1.store) e
        (refl, h)

  pub bind-SameApi :
      {A B : Type 0} (m : Api A) (f : A → Api B)
      → SameApi v m
      → ((a : A) → SameApi v (f a))
      → SameApi v (m >>= f)
  bind-SameApi m f hm hf = record {
    same = λ w x h.
        let (e, rest) = hm.same w x h in then-Api f (m w).0 (m x).0 (m w).1 (m x).1 hf e rest;
  }

  pub tenant-SameApi :
      {B : Type 0} (r : Response) (o : Option ℕ) (f : ℕ → Api B)
      → o ≡ some v
      → SameApi v (f v)
      → SameApi v (or_reply r o >>= f)
  tenant-SameApi r o f e h =
      subst (λ x. SameApi v (or_reply r x >>= f)) (sym e) (record { same = h.same })

pub ruleset same_rules = (
  pure-SameTx, or_raise-SameTx, bind-SameTx, pure-SameApi, or_reply-SameApi, call-SameApi,
  bind-SameApi,
)
