-- ===== src/Store/Faults.antt =====
-- What failures of the driver can do to a transaction.
use payflow_payments_ops_pla.Base.{
  ◌≡◌, refl, sym, subst, subst₂, ◌⊎◌, inl, inr, Bool, true, false, List, [], ◌∷◌, arith, Option,
  none, some, if◌then◌else◌,
}
use payflow_payments_ops_pla.Store.Rows.{Db}
use payflow_payments_ops_pla.Store.Transactions.{
  Error, db_error, Result, ok, err, TxState, Tx, pure, raise, stmt, or_raise, raise_if, ◌>>=◌,
  and_then,
}

abbrev pub at : Db → List Bool → TxState
at db fs = record { db = db; faults = fs }

abbrev pub outcome : {A : Type 0} → Result A × TxState → Result A × Db
outcome (r, t) = (r, t.db)

-- The run in which the driver never fails.
abbrev pub clean : {A : Type 0} → Tx A → Db → Result A × Db
clean m db = outcome (m (at db []))

-- Failures stop a program with a driver error, and change nothing else about what it does.
pub record FaultSafe {A : Type 0} (m : Tx A) : Type 0 where
  pub quiet : (db : Db) → (m (at db [])).1.faults ≡ []
  pub same :
      (db : Db) (fs : List Bool)
      → ((m (at db fs)).0 ≡ err db_error)
        ⊎ (((m (at db fs)).0 ≡ (clean m db).0) × ((m (at db fs)).1.db ≡ (clean m db).1))

pub pure-FaultSafe : {A : Type 0} (a : A) → FaultSafe (pure a)
pure-FaultSafe a = record { quiet = λ db. refl; same = λ db fs. inr (refl, refl) }

pub raise-FaultSafe : {A : Type 0} (e : Error) → FaultSafe (raise {A = A} e)
raise-FaultSafe e = record { quiet = λ db. refl; same = λ db fs. inr (refl, refl) }

stmt-same :
    {A : Type 0} (q : Db → Result A × Db) (db : Db) (fs : List Bool)
    → ((stmt q (at db fs)).0 ≡ err db_error)
      ⊎ (((stmt q (at db fs)).0 ≡ (clean (stmt q) db).0)
          × ((stmt q (at db fs)).1.db ≡ (clean (stmt q) db).1))
unfolding stmt
stmt-same q db [] = inr (refl, refl)
stmt-same q db (true ∷ fs) = inl refl
stmt-same q db (false ∷ fs) = inr (refl, refl)

pub stmt-FaultSafe : {A : Type 0} (q : Db → Result A × Db) → FaultSafe (stmt q)
unfolding stmt
stmt-FaultSafe q = record { quiet = λ db. refl; same = stmt-same q }

module _ {A B : Type 0} (m : Tx A) (f : A → Tx B) where
  then-quiet :
      ((a : A) → FaultSafe (f a))
      → (out : Result A × TxState) → out.1.faults ≡ []
      → (and_then out f).1.faults ≡ []
  then-quiet hf (ok a, t) e =
      subst (λ fs. (f a (at t.db fs)).1.faults ≡ []) (sym e) ((hf a).quiet t.db)
  then-quiet hf (err x, t) e = e

  -- One run that met failures against the run that met none.
  abbrev Agrees : {C : Type 0} → Result C × TxState → Result C × TxState → Type 0
  Agrees p q = (p.0 ≡ err db_error) ⊎ ((p.0 ≡ q.0) × (p.1.db ≡ q.1.db))

  then-same :
      ((a : A) → FaultSafe (f a))
      → (p q : Result A × TxState) → q.1.faults ≡ []
      → Agrees p q
      → Agrees (and_then p f) (and_then q f)
  then-same hf (err x, t) (ok b, u) e (inl h) = inl (ground arith)
  then-same hf (err x, t) (err y, u) e (inl h) = inl (ground arith)
  then-same hf (ok a, t) q e (inl h) = absurd (ground arith)
  then-same hf (ok a, t) (ok b, u) e (inr h) =
      let same_value : a ≡ b = cc in
      let from_b = (hf b).same u.db t.faults in
      let quiet_u =
        subst (λ fs. Agrees (f b (at u.db t.faults)) (f b (at u.db fs))) (sym e) from_b in
      let same_db = subst (λ d. Agrees (f b (at d t.faults)) (f b u)) (sym h.1) quiet_u in
      subst (λ x. Agrees (f x t) (f b u)) (sym same_value) same_db
  then-same hf (ok a, t) (err y, u) e (inr h) = absurd (ground arith)
  then-same hf (err x, t) (ok b, u) e (inr h) = absurd (ground arith)
  then-same hf (err x, t) (err y, u) e (inr h) = inr (ground arith)

  pub bind-FaultSafe : FaultSafe m → ((a : A) → FaultSafe (f a)) → FaultSafe (m >>= f)
  bind-FaultSafe hm hf = record {
    quiet = λ db. then-quiet hf (m (at db [])) (hm.quiet db);
    same = λ db fs. then-same hf (m (at db fs)) (m (at db [])) (hm.quiet db) (hm.same db fs);
  }

pub or_raise-FaultSafe : {A : Type 0} (e : Error) (o : Option A) → FaultSafe (or_raise e o)
or_raise-FaultSafe e none = raise-FaultSafe e
or_raise-FaultSafe e (some a) = pure-FaultSafe a

pub raise_if-FaultSafe : (b : Bool) (e : Error) → FaultSafe (raise_if b e)
raise_if-FaultSafe true e = raise-FaultSafe e
raise_if-FaultSafe false e = pure-FaultSafe tt

pub if-FaultSafe :
    {A : Type 0} (b : Bool) (m n : Tx A)
    → FaultSafe m
    → FaultSafe n
    → FaultSafe (if b then m else n)
if-FaultSafe true m n hm hn = hm
if-FaultSafe false m n hm hn = hn

pub ruleset safe_rules = (
  bind-FaultSafe, stmt-FaultSafe, or_raise-FaultSafe, raise_if-FaultSafe, pure-FaultSafe,
  raise-FaultSafe, if-FaultSafe,
)

-- Inversion of a sequence that succeeds when nothing fails.
then-ok :
    {A B : Type 0} (f : A → Tx B) (out : Result A × TxState) (b : B) (db' : Db)
    → out.1.faults ≡ []
    → outcome (and_then out f) ≡ (ok b, db')
    → (a : A) × (mid : Db) × (outcome out ≡ (ok a, mid)) × (clean (f a) mid ≡ (ok b, db'))
then-ok f (ok a, t) b db' e h =
    (a, t.db, refl, subst (λ fs. outcome (f a (at t.db fs)) ≡ (ok b, db')) e h)
then-ok f (err x, t) b db' e h = absurd (ground arith)

pub bind-ok :
    {A B : Type 0} (m : Tx A) (f : A → Tx B) (db : Db) (b : B) (db' : Db)
    → FaultSafe m
    → clean (m >>= f) db ≡ (ok b, db')
    → (a : A) × (mid : Db) × (clean m db ≡ (ok a, mid)) × (clean (f a) mid ≡ (ok b, db'))
bind-ok m f db b db' safe h = then-ok f (m (at db [])) b db' (safe.quiet db) h

-- A sequence whose first part succeeds goes on with the second.
then-clean :
    {A B : Type 0} (f : A → Tx B) (out : Result A × TxState) (a : A) (mid : Db)
    → out.1.faults ≡ []
    → outcome out ≡ (ok a, mid)
    → outcome (and_then out f) ≡ clean (f a) mid
then-clean f (ok b, t) a mid e h =
    let value : b ≡ a = ground arith in
    let tables : t.db ≡ mid = ground arith in
    subst (λ fs. outcome (f b (at t.db fs)) ≡ clean (f a) mid) (sym e)
      (subst₂ (λ x d. clean (f b) t.db ≡ clean (f x) d) value tables refl)
then-clean f (err x, t) a mid e h = absurd (ground arith)

pub bind-clean :
    {A B : Type 0} (m : Tx A) (f : A → Tx B) (db : Db) (a : A) (mid : Db)
    → FaultSafe m
    → clean m db ≡ (ok a, mid)
    → clean (m >>= f) db ≡ clean (f a) mid
bind-clean m f db a mid safe h = then-clean f (m (at db [])) a mid (safe.quiet db) h
