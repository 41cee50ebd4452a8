-- ===== src/Http/Keeps.antt =====
-- A predicate of the tables that a handler keeps, whatever fails and whatever it replies.
pub mod Calls
pub mod Handlers
pub mod Serve
use payflow_payments_ops_pla.Base.{
  ◌≡◌, refl, Bool, true, false, Option, none, some, List, [], ◌∷◌, ⊤, ℕ, ◌≢◌,
}
use payflow_payments_ops_pla.Store.{
  Db, Error, Result, ok, err, Tx, TxState, stmt, query, or_raise, raise_if, transact,
}
use payflow_payments_ops_pla.Store.Faults.{at}
use payflow_payments_ops_pla.Store.Keeps.{Keeps, transact-Keeps, raise_if-transact_Keeps}
use payflow_payments_ops_pla.Store as Tx
use payflow_payments_ops_pla.Queue.{World, W}
use payflow_payments_ops_pla.Http.{
  Response, Reply, answered, going, Api, pure, reply, or_reply, call, drop_error, reply_if,
  call_publisher, run, ◌>>=◌, ◌>>◌,
}

-- For an operation of the database, and for a handler.
pub record KeepsTx {A : Type 0} (P : Db → Type 0) (m : Tx A) : Type 0 where
  pub keeps : (s : TxState) → P s.db → P (m s).1.db

pub record KeepsApi {A : Type 0} (P : Db → Type 0) (m : Api A) : Type 0 where
  pub keeps : (w : World) → P w.store.db → P (m w).1.store.db

module _ (P : Db → Type 0) where
  pub transact-KeepsTx : {A : Type 0} (body : Tx A) → Keeps P body → KeepsTx P (transact body)
  transact-KeepsTx body h = record {
    keeps = λ s before. transact-Keeps P body h s.db s.faults before;
  }

  pub raise_if-transact-KeepsTx :
      {A : Type 0} (b : Bool) (e : Error) (body : Tx A)
      → Keeps P body
      → KeepsTx P (Tx.◌>>◌ (raise_if b e) (transact body))
  raise_if-transact-KeepsTx b e body h = record {
    keeps = λ s before. raise_if-transact_Keeps P b e body h s.db s.faults before;
  }

  stmt-cases :
      {A : Type 0} (q : Db → Result A × Db) (fs : List Bool) (db : Db)
      → ((db : Db) → P db → P (q db).1)
      → P db
      → P (stmt q (at db fs)).1.db
  unfolding stmt
  stmt-cases q [] db h before = h db before
  stmt-cases q (true ∷ fs) db h before = before
  stmt-cases q (false ∷ fs) db h before = h db before

  pub stmt-KeepsTx :
      {A : Type 0} (q : Db → Result A × Db) → ((db : Db) → P db → P (q db).1) → KeepsTx P (stmt q)
  stmt-KeepsTx q h = record { keeps = λ s before. stmt-cases q s.faults s.db h before }

  pub query-KeepsTx : {A : Type 0} (f : Db → A) → KeepsTx P (query f)
  query-KeepsTx f = stmt-KeepsTx _ λ db before. before

  pub pure-KeepsTx : {A : Type 0} (a : A) → KeepsTx P (Tx.pure a)
  pure-KeepsTx a = record { keeps = λ s before. before }

  pub or_raise-KeepsTx : {A : Type 0} (e : Error) (o : Option A) → KeepsTx P (or_raise e o)
  or_raise-KeepsTx e none = record { keeps = λ s before. before }
  or_raise-KeepsTx e (some a) = record { keeps = λ s before. before }

  then-Tx :
      {A B : Type 0} (f : A → Tx B) (out : Result A × TxState)
      → ((a : A) → KeepsTx P (f a))
      → P out.1.db
      → P (Tx.and_then out f).1.db
  then-Tx f (ok a, t) h before = (h a).keeps t before
  then-Tx f (err e, t) h before = before

  pub bind-KeepsTx :
      {A B : Type 0} (m : Tx A) (f : A → Tx B)
      → KeepsTx P m
      → ((a : A) → KeepsTx P (f a))
      → KeepsTx P (Tx.◌>>=◌ m f)
  bind-KeepsTx m f hm hf = record { keeps = λ s before. then-Tx f (m s) hf (hm.keeps s before) }

  pub pure-KeepsApi : {A : Type 0} (a : A) → KeepsApi P (pure a)
  pure-KeepsApi a = record { keeps = λ w before. before }

  pub reply-KeepsApi : {A : Type 0} (r : Response) → KeepsApi P (reply {A = A} r)
  reply-KeepsApi r = record { keeps = λ w before. before }

  pub or_reply-KeepsApi : {A : Type 0} (r : Response) (o : Option A) → KeepsApi P (or_reply r o)
  or_reply-KeepsApi r none = reply-KeepsApi r
  or_reply-KeepsApi r (some a) = pure-KeepsApi a

  pub reply_if-KeepsApi : (b : Bool) (r : Response) → KeepsApi P (reply_if b r)
  reply_if-KeepsApi true r = reply-KeepsApi r
  reply_if-KeepsApi false r = pure-KeepsApi tt

  pub call-KeepsApi :
      {A : Type 0} (f : Error → Response) (m : Tx A) → KeepsTx P m → KeepsApi P (call f m)
  call-KeepsApi f m h = record { keeps = λ w before. h.keeps w.store before }

  pub drop_error-KeepsApi : {A : Type 0} (m : Tx A) → KeepsTx P m → KeepsApi P (drop_error m)
  drop_error-KeepsApi m h = record { keeps = λ w before. h.keeps w.store before }

  pub call_publisher-KeepsApi :
      (r : Response) (m : W ⊤)
      → ((w : World) → P w.store.db → P (m w).1.store.db)
      → KeepsApi P (call_publisher r m)
  call_publisher-KeepsApi r m h = record { keeps = h }

  then-Api :
      {A B : Type 0} (f : A → Api B) (out : Reply A × World)
      → ((a : A) → out.0 ≡ going a → KeepsApi P (f a))
      → P out.1.store.db
      → P (payflow_payments_ops_pla.Http.and_then out f).1.store.db
  then-Api f (going a, w) h before = (h a refl).keeps w before
  then-Api f (answered r, w) h before = before

  pub bind-KeepsApi :
      {A B : Type 0} (m : Api A) (f : A → Api B)
      → KeepsApi P m
      → ((a : A) → KeepsApi P (f a))
      → KeepsApi P (m >>= f)
  bind-KeepsApi m f hm hf = record {
    keeps = λ w before. then-Api f (m w) (λ a e. hf a) (hm.keeps w before);
  }

  -- At one world, where the rest may use what the first part came to.
  pub bind-keeps :
      {A B : Type 0} (m : Api A) (f : A → Api B) (w : World)
      → KeepsApi P m
      → ((a : A) → (m w).0 ≡ going a → KeepsApi P (f a))
      → P w.store.db
      → P ((m >>= f) w).1.store.db
  bind-keeps m f w hm hf before = then-Api f (m w) hf (hm.keeps w before)

  -- A value that a handler goes on with only where it is there.
  pub some-KeepsApi :
      {A B : Type 0} (r : Response) (o : Option A) (f : A → Api B)
      → ((a : A) → o ≡ some a → KeepsApi P (f a))
      → KeepsApi P (or_reply r o >>= f)
  some-KeepsApi r none f h = record { keeps = λ w before. before }
  some-KeepsApi r (some a) f h = record { keeps = λ w before. (h a refl).keeps w before }

pub ruleset keeps_rules = (
  pure-KeepsApi, reply-KeepsApi, or_reply-KeepsApi, reply_if-KeepsApi, call-KeepsApi,
  drop_error-KeepsApi, bind-KeepsApi, query-KeepsTx, or_raise-KeepsTx, pure-KeepsTx, bind-KeepsTx,
)
