-- ===== src/Queue/Keeps.antt =====
-- A predicate of the tables that an operation of the worker keeps, whatever fails and whatever it returns.
use payflow_payments_ops_pla.Base.{◌≡◌, arith, Bool, true, false, if◌then◌else◌}
use payflow_payments_ops_pla.Store.{Db, Error, Result, ok, err, Tx}
use payflow_payments_ops_pla.Queue.{
  Job, publish, World, W, lift, ignore, pure, raise, and_then, ◌>>=◌,
}
use payflow_payments_ops_pla.Http.Keeps.{KeepsTx, query-KeepsTx}

pub record KeepsW {A : Type 0} (P : Db → Type 0) (m : W A) : Type 0 where
  pub keeps : (w : World) → P w.store.db → P (m w).1.store.db

module _ (P : Db → Type 0) where
  pub pure-KeepsW : {A : Type 0} (a : A) → KeepsW P (pure a)
  pure-KeepsW a = record { keeps = λ w before. before }

  pub raise-KeepsW : {A : Type 0} (e : Error) → KeepsW P (raise {A = A} e)
  raise-KeepsW e = record { keeps = λ w before. before }

  pub lift-KeepsW : {A : Type 0} (m : Tx A) → KeepsTx P m → KeepsW P (lift m)
  lift-KeepsW m h = record { keeps = λ w before. h.keeps w.store before }

  pub ignore-KeepsW : {A : Type 0} (m : W A) → KeepsW P m → KeepsW P (ignore m)
  ignore-KeepsW m h = record { keeps = λ w before. h.keeps w before }

  then-W :
      {A B : Type 0} (f : A → W B) (out : Result A × World)
      → ((a : A) → KeepsW P (f a))
      → P out.1.store.db
      → P (and_then out f).1.store.db
  then-W f (ok a, w) h before = (h a).keeps w before
  then-W f (err e, w) h before = before

  pub bind-KeepsW :
      {A B : Type 0} (m : W A) (f : A → W B)
      → KeepsW P m
      → ((a : A) → KeepsW P (f a))
      → KeepsW P (m >>= f)
  bind-KeepsW m f hm hf = record { keeps = λ w before. then-W f (m w) hf (hm.keeps w before) }

  pub if-KeepsW :
      {A : Type 0} (b : Bool) (m n : W A) → KeepsW P m → KeepsW P n → KeepsW P (if b then m else n)
  if-KeepsW true m n hm hn = hm
  if-KeepsW false m n hm hn = hn

pub ruleset worker_rules =
    (pure-KeepsW, raise-KeepsW, lift-KeepsW, ignore-KeepsW, bind-KeepsW, if-KeepsW, query-KeepsTx)

-- The publisher over Redis leaves the tables alone.
pub publish-db : (job : Job) (w : World) → (publish job w).1.store.db ≡ w.store.db
unfolding publish
publish-db job w = ground arith
