-- ===== src/Store/Keeps.antt =====
-- A predicate of the tables that a program keeps when nothing fails and it returns no error.
use payflow_payments_ops_pla.Base.{
  ◌≡◌, refl, subst, Bool, true, false, Option, none, some, List, arith, if◌then◌else◌,
}
use payflow_payments_ops_pla.Store.Rows.{Db}
use payflow_payments_ops_pla.Store.Transactions.{
  Error, Result, ok, err, Tx, pure, raise, stmt, query, exec, raise_if, or_raise, transact,
  transact_if, ◌>>=◌, ◌>>◌,
}
use payflow_payments_ops_pla.Store.Faults.{
  FaultSafe, at, clean, bind-ok, bind-FaultSafe, pure-FaultSafe, raise-FaultSafe, stmt-FaultSafe,
}
use payflow_payments_ops_pla.Store.Atomic.{
  commit_if, transact-Atomic, transact_if-Atomic, Atomic-keeps, run-eta,
}

pub record Keeps {A : Type 0} (P : Db → Type 0) (m : Tx A) : Type 0 where
  pub safe : FaultSafe m
  pub keeps : (db : Db) (a : A) (db' : Db) → clean m db ≡ (ok a, db') → P db → P db'

module _ (P : Db → Type 0) where
  pub bind-Keeps :
      {A B : Type 0} (m : Tx A) (f : A → Tx B)
      → Keeps P m
      → ((a : A) → Keeps P (f a))
      → Keeps P (m >>= f)
  bind-Keeps m f hm hf = record {
    safe = bind-FaultSafe m f hm.safe (λ a. (hf a).safe);
    keeps = λ db b db' run before.
        let (a, mid, first, second) = bind-ok m f db b db' hm.safe run in
        (hf a).keeps mid b db' second (hm.keeps db a mid first before);
  }

  pub pure-Keeps : {A : Type 0} (a : A) → Keeps P (pure a)
  pure-Keeps a = record {
    safe = pure-FaultSafe a;
    keeps = λ db b db' run before. let same : db ≡ db' = ground arith in subst P same before;
  }

  pub raise-Keeps : {A : Type 0} (e : Error) → Keeps P (raise {A = A} e)
  raise-Keeps e = record {
    safe = raise-FaultSafe e;
    keeps = λ db b db' run before. absurd (ground arith);
  }

  pub stmt-Keeps :
      {A : Type 0} (q : Db → Result A × Db)
      → ((db : Db) (a : A) (db' : Db) → q db ≡ (ok a, db') → P db → P db')
      → Keeps P (stmt q)
  unfolding stmt
  stmt-Keeps q h = record { safe = stmt-FaultSafe q; keeps = h }

  pub query-Keeps : {A : Type 0} (f : Db → A) → Keeps P (query f)
  query-Keeps f =
      stmt-Keeps _ λ db a db' run before. let same : db ≡ db' = ground arith in subst P same before

  pub or_raise-Keeps : {A : Type 0} (e : Error) (o : Option A) → Keeps P (or_raise e o)
  or_raise-Keeps e none = raise-Keeps e
  or_raise-Keeps e (some a) = pure-Keeps a

  pub raise_if-Keeps : (b : Bool) (e : Error) → Keeps P (raise_if b e)
  raise_if-Keeps true e = raise-Keeps e
  raise_if-Keeps false e = pure-Keeps tt

  pub if-Keeps :
      {A : Type 0} (b : Bool) (m n : Tx A) → Keeps P m → Keeps P n → Keeps P (if b then m else n)
  if-Keeps true m n hm hn = hm
  if-Keeps false m n hm hn = hn

  -- A transaction, whatever fails, from its run without failures.
  pub transact-from :
      {A : Type 0} (body : Tx A)
      → FaultSafe body
      → (db : Db) (fs : List Bool) → P db
      → ((a : A) (db' : Db) → clean body db ≡ (ok a, db') → P db')
      → P (transact body (at db fs)).1.db
  transact-from body safe db fs before after =
      Atomic-keeps P db (clean body db) (transact body (at db fs)) (transact-Atomic body safe db fs)
        before λ a e. after a (clean body db).1 (run-eta (clean body db) a e)

  -- Through a transaction the predicate holds afterwards, whatever fails.
  pub transact-Keeps :
      {A : Type 0} (body : Tx A)
      → Keeps P body
      → (db : Db) (fs : List Bool) → P db
      → P (transact body (at db fs)).1.db
  transact-Keeps body h db fs before =
      transact-from body h.safe db fs before λ a db' run. h.keeps db a db' run before

  of_commit_if :
      {A : Type 0} (old : Db) (run : Result (A × Bool) × Db) (a : A)
      → P old
      → ((x : A × Bool) → run.0 ≡ ok x → P run.1)
      → (commit_if old run).0 ≡ ok a
      → P (commit_if old run).1
  of_commit_if old (ok (x, true), new) a before after h = after (x, true) refl
  of_commit_if old (ok (x, false), new) a before after h = before
  of_commit_if old (err e, new) a before after h = before

  pub transact_if-from :
      {A : Type 0} (body : Tx (A × Bool))
      → FaultSafe body
      → (db : Db) (fs : List Bool) → P db
      → ((x : A × Bool) (db' : Db) → clean body db ≡ (ok x, db') → P db')
      → P (transact_if body (at db fs)).1.db
  transact_if-from body safe db fs before after =
      Atomic-keeps P db (commit_if db (clean body db)) (transact_if body (at db fs))
        (transact_if-Atomic body safe db fs) before
        λ a e.
          of_commit_if db (clean body db) a before
            (λ x r. after x (clean body db).1 (run-eta (clean body db) x r)) e

pub ruleset keep_rules =
    (bind-Keeps, pure-Keeps, raise-Keeps, query-Keeps, or_raise-Keeps, raise_if-Keeps, if-Keeps)

pub exec-Keeps : (P : Db → Type 0) (f : Db → Db) → ((db : Db) → P db → P (f db)) → Keeps P (exec f)
exec-Keeps P f h =
    stmt-Keeps P _
      λ db a db' run before. let same : f db ≡ db' = ground arith in subst P same (h db before)

-- A test in front of a transaction.
pub raise_if-transact_from :
    {A : Type 0} (P : Db → Type 0) (b : Bool) (e : Error) (body : Tx A)
    → FaultSafe body
    → (db : Db) (fs : List Bool) → P db
    → ((a : A) (db' : Db) → clean body db ≡ (ok a, db') → P db')
    → P ((raise_if b e >> transact body) (at db fs)).1.db
raise_if-transact_from P true e body safe db fs before after = before
raise_if-transact_from P false e body safe db fs before after =
    transact-from P body safe db fs before after

pub raise_if-transact_Keeps :
    {A : Type 0} (P : Db → Type 0) (b : Bool) (e : Error) (body : Tx A)
    → Keeps P body
    → (db : Db) (fs : List Bool) → P db
    → P ((raise_if b e >> transact body) (at db fs)).1.db
raise_if-transact_Keeps P b e body h db fs before =
    raise_if-transact_from P b e body h.safe db fs before λ a db' run. h.keeps db a db' run before
