-- ===== src/Store/Atomic.antt =====
-- What a transaction leaves behind when calls of the driver fail.
use payflow_payments_ops_pla.Base.{
  ◌≡◌, refl, sym, subst, ◌⊎◌, inl, inr, Bool, true, false, List, [], ◌∷◌, arith,
}
use payflow_payments_ops_pla.Store.Rows.{Db}
use payflow_payments_ops_pla.Store.Transactions.{
  Error, db_error, Result, ok, err, TxState, Tx, commit, finish, transact, finish_if, transact_if,
  raise_if, ◌>>◌,
}
use payflow_payments_ops_pla.Store.Faults.{FaultSafe, at, clean}

-- The end of a transaction that began at `old`: what `spec`, the run without failures, describes
-- was committed; or it was refused with the error of `spec`; or the driver failed, and then the
-- tables are the old ones or those of `spec`.
pub data Atomic {A : Type 0} (old : Db) (spec : Result A × Db) (out : Result A × TxState)
    : Type 0 where
  committed : (a : A) → spec.0 ≡ ok a → out.0 ≡ ok a → out.1.db ≡ spec.1 → Atomic old spec out
  refused : (e : Error) → spec.0 ≡ err e → out.0 ≡ err e → out.1.db ≡ old → Atomic old spec out
  failed : out.0 ≡ err db_error → out.1.db ≡ old → Atomic old spec out
  unsure : (a : A) → spec.0 ≡ ok a → out.0 ≡ err db_error → out.1.db ≡ spec.1 → Atomic old spec out

module _ {A : Type 0} (old : Db) (spec : Result A × Db) where
  commit-Atomic :
      (a : A) (fs : List Bool) (new : Db)
      → spec.0 ≡ ok a
      → new ≡ spec.1
      → Atomic old spec (commit fs a old new)
  commit-Atomic a [] new h e = committed a h refl e
  commit-Atomic a (false ∷ fs) new h e = committed a h refl e
  commit-Atomic a (true ∷ []) new h e = failed refl refl
  commit-Atomic a (true ∷ false ∷ fs) new h e = failed refl refl
  commit-Atomic a (true ∷ true ∷ fs) new h e = unsure a h refl e

  finish-Atomic :
      (out : Result A × TxState)
      → (out.0 ≡ err db_error) ⊎ ((out.0 ≡ spec.0) × (out.1.db ≡ spec.1))
      → Atomic old spec (finish old out)
  finish-Atomic (ok a, t) (inl h) = absurd (ground arith)
  finish-Atomic (ok a, t) (inr h) = commit-Atomic a t.faults t.db (sym h.0) h.1
  finish-Atomic (err e, t) (inl h) = failed h refl
  finish-Atomic (err e, t) (inr h) = refused e (sym h.0) refl refl

transact-begin :
    {A : Type 0} (body : Tx A) (db : Db) (fs : List Bool)
    → FaultSafe body
    → Atomic db (clean body db) (transact body (at db fs))
unfolding transact
transact-begin body db [] safe =
    finish-Atomic db (clean body db) (body (at db [])) (safe.same db [])
transact-begin body db (true ∷ fs) safe = failed refl refl
transact-begin body db (false ∷ fs) safe =
    finish-Atomic db (clean body db) (body (at db fs)) (safe.same db fs)

pub transact-Atomic :
    {A : Type 0} (body : Tx A)
    → FaultSafe body
    → (db : Db) (fs : List Bool) → Atomic db (clean body db) (transact body (at db fs))
transact-Atomic body safe db fs = transact-begin body db fs safe

-- Without failures a transaction is its body, or nothing if the body returns an error.
abbrev pub or_rollback : {A : Type 0} → Db → Result A × Db → Result A × Db
or_rollback old (ok a, new) = (ok a, new)
or_rollback old (err e, new) = (err e, old)

finish-clean :
    {A : Type 0} (old : Db) (out : Result A × TxState)
    → out.1.faults ≡ []
    → let done = finish old out in (done.0, done.1.db) ≡ or_rollback old (out.0, out.1.db)
finish-clean {A} old (ok a, t) e =
    subst
      (λ fs.
        ◌≡◌ {A = Result A × Db} ((commit fs a old t.db).0, (commit fs a old t.db).1.db)
          (ok a, t.db))
      (sym e) refl
finish-clean old (err x, t) e = refl

pub clean-transact :
    {A : Type 0} (body : Tx A) (db : Db)
    → FaultSafe body
    → clean (transact body) db ≡ or_rollback db (clean body db)
unfolding transact
clean-transact body db safe = finish-clean db (body (at db [])) (safe.quiet db)

pub or_rollback-ok :
    {A : Type 0} (old : Db) (run : Result A × Db) (a : A) (new : Db)
    → or_rollback old run ≡ (ok a, new)
    → run ≡ (ok a, new)
or_rollback-ok old (ok b, mid) a new h = h
or_rollback-ok old (err e, mid) a new h = absurd (ground arith)

pub or_rollback-err :
    {A : Type 0} (old : Db) (run : Result A × Db) (e : Error)
    → (or_rollback old run).0 ≡ err e
    → run.0 ≡ err e
or_rollback-err old (ok a, mid) e h = h
or_rollback-err old (err x, mid) e h = h

-- What a transaction that may end without Commit leaves when nothing fails.
abbrev pub commit_if : {A : Type 0} → Db → Result (A × Bool) × Db → Result A × Db
commit_if old (ok (a, true), new) = (ok a, new)
commit_if old (ok (a, false), new) = (ok a, old)
commit_if old (err e, new) = (err e, old)

finish_if-Atomic :
    {A : Type 0} (old : Db) (spec : Result (A × Bool) × Db) (out : Result (A × Bool) × TxState)
    → (out.0 ≡ err db_error) ⊎ ((out.0 ≡ spec.0) × (out.1.db ≡ spec.1))
    → Atomic old (commit_if old spec) (finish_if old out)
finish_if-Atomic old spec (ok a, t) (inl h) = absurd (ground arith)
finish_if-Atomic old (ok (a, true), new) (ok (b, true), t) (inr h) =
    commit-Atomic old (ok a, new) b t.faults t.db (ground arith) h.1
finish_if-Atomic old (ok (a, false), new) (ok (b, false), t) (inr h) =
    committed b (ground arith) refl refl
finish_if-Atomic old (ok (a, true), new) (ok (b, false), t) (inr h) = absurd (ground arith)
finish_if-Atomic old (ok (a, false), new) (ok (b, true), t) (inr h) = absurd (ground arith)
finish_if-Atomic old (err e, new) (ok b, t) (inr h) = absurd (ground arith)
finish_if-Atomic old spec (err e, t) (inl h) = failed (ground arith) refl
finish_if-Atomic old (ok a, new) (err e, t) (inr h) = absurd (ground arith)
finish_if-Atomic old (err x, new) (err e, t) (inr h) = refused e (ground arith) refl refl

-- Seen from the tables: those of the run without failures, which returned a value; or the old ones,
-- with an error, which is that of the run without failures unless the driver failed.
pub Atomic-cases :
    {A : Type 0} (old : Db) (spec : Result A × Db) (out : Result A × TxState)
    → Atomic old spec out
    → ((a : A) × (spec ≡ (ok a, out.1.db)) × ((out.0 ≡ ok a) ⊎ (out.0 ≡ err db_error)))
      ⊎ ((e : Error) × (out.0 ≡ err e) × (out.1.db ≡ old) × ((spec.0 ≡ err e) ⊎ (e ≡ db_error)))
Atomic-cases old spec out (committed a h r same) = inl (a, ground arith, inl r)
Atomic-cases old spec out (refused e h r same) = inr (e, r, same, inl h)
Atomic-cases old spec out (failed r same) = inr (db_error, r, same, inr refl)
Atomic-cases old spec out (unsure a h r same) = inl (a, ground arith, inr r)

transact_if-begin :
    {A : Type 0} (body : Tx (A × Bool)) (db : Db) (fs : List Bool)
    → FaultSafe body
    → Atomic db (commit_if db (clean body db)) (transact_if body (at db fs))
unfolding transact_if
transact_if-begin body db [] safe =
    finish_if-Atomic db (clean body db) (body (at db [])) (safe.same db [])
transact_if-begin body db (true ∷ fs) safe = failed refl refl
transact_if-begin body db (false ∷ fs) safe =
    finish_if-Atomic db (clean body db) (body (at db fs)) (safe.same db fs)

pub transact_if-Atomic :
    {A : Type 0} (body : Tx (A × Bool))
    → FaultSafe body
    → (db : Db) (fs : List Bool)
    → Atomic db (commit_if db (clean body db)) (transact_if body (at db fs))
transact_if-Atomic body safe db fs = transact_if-begin body db fs safe

finish_if-clean :
    {A : Type 0} (old : Db) (out : Result (A × Bool) × TxState)
    → out.1.faults ≡ []
    → let done = finish_if old out in (done.0, done.1.db) ≡ commit_if old (out.0, out.1.db)
finish_if-clean {A} old (ok (a, true), t) e =
    subst
      (λ fs.
        ◌≡◌ {A = Result A × Db} ((commit fs a old t.db).0, (commit fs a old t.db).1.db)
          (ok a, t.db))
      (sym e) refl
finish_if-clean old (ok (a, false), t) e = refl
finish_if-clean old (err x, t) e = refl

pub clean-transact_if :
    {A : Type 0} (body : Tx (A × Bool)) (db : Db)
    → FaultSafe body
    → clean (transact_if body) db ≡ commit_if db (clean body db)
unfolding transact_if
clean-transact_if body db safe = finish_if-clean db (body (at db [])) (safe.quiet db)

-- A test in front of an operation: its error leaves all as it was.
pub raise_if-Atomic :
    {A : Type 0} (b : Bool) (e : Error) (m : Tx A) (db : Db) (fs : List Bool)
    → Atomic db (clean m db) (m (at db fs))
    → Atomic db (clean (raise_if b e >> m) db) ((raise_if b e >> m) (at db fs))
raise_if-Atomic true e m db fs h = refused e refl refl refl
raise_if-Atomic false e m db fs h = h

-- `Atomic` against the transaction's own run without failures, instead of its body's.
of_body :
    {A : Type 0} (old : Db) (spec : Result A × Db) (out : Result A × TxState)
    → Atomic old spec out
    → Atomic old (or_rollback old spec) out
of_body old (ok a, new) out h = h
of_body old (err e, new) out (committed a h _ _) = absurd (ground arith)
of_body old (err e, new) out (refused x h r d) = refused x h r d
of_body old (err e, new) out (failed r d) = failed r d
of_body old (err e, new) out (unsure a h _ _) = absurd (ground arith)

pub transact-clean-Atomic :
    {A : Type 0} (body : Tx A)
    → FaultSafe body
    → (db : Db) (fs : List Bool) → Atomic db (clean (transact body) db) (transact body (at db fs))
transact-clean-Atomic body safe db fs =
    subst (λ spec. Atomic db spec (transact body (at db fs))) (sym (clean-transact body db safe))
      (of_body db (clean body db) (transact body (at db fs)) (transact-Atomic body safe db fs))

-- What holds of the tables before, and of those of the run without failures, holds afterwards.
pub Atomic-keeps :
    {A : Type 0} (P : Db → Type 0) (old : Db) (spec : Result A × Db) (out : Result A × TxState)
    → Atomic old spec out
    → P old
    → ((a : A) → spec.0 ≡ ok a → P spec.1)
    → P out.1.db
Atomic-keeps P old spec out (committed a h _ d) before after = subst P (sym d) (after a h)
Atomic-keeps P old spec out (refused e h _ d) before after = subst P (sym d) before
Atomic-keeps P old spec out (failed _ d) before after = subst P (sym d) before
Atomic-keeps P old spec out (unsure a h _ d) before after = subst P (sym d) (after a h)

-- A run is its result and its tables.
pub run-eta : {A : Type 0} (run : Result A × Db) (a : A) → run.0 ≡ ok a → run ≡ (ok a, run.1)
run-eta (r, db) a h = ground arith

pub commit_if-cases :
    {A : Type 0} (old : Db) (run : Result (A × Bool) × Db) (a : A) (new : Db)
    → commit_if old run ≡ (ok a, new)
    → (run ≡ (ok (a, true), new)) ⊎ ((mid : Db) × (run ≡ (ok (a, false), mid)) × (new ≡ old))
commit_if-cases old (ok (b, true), mid) a new h = inl (ground arith)
commit_if-cases old (ok (b, false), mid) a new h = inr (mid, ground arith, ground arith)
commit_if-cases old (err e, mid) a new h = absurd (ground arith)
