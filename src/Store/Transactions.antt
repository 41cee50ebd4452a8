-- ===== src/Store/Transactions.antt =====
-- Transactions as the handlers use them: Begin, statements, a deferred Rollback, Commit.
-- Every call to the database may break; `faults` says, call by call, which ones do.
use payflow_payments_ops_pla.Base.{Bool, true, false, Option, none, some, List, [], ◌∷◌, ⊤}
use payflow_payments_ops_pla.Store.Rows.{Db}

-- The errors that the operations return. `db_error` is any failure of the driver, a constraint
-- violation included; `no_rows` is pgx.ErrNoRows where a method returns it.
pub data Error : Type 0 where
  db_error no_rows invalid_input not_found idempotency_mismatch : Error
  payment_not_refundable refund_amount_exceeded refund_settle_status : Error
  invalid_name bad_uuid unknown_outbox_kind no_entropy publish_failed : Error
  bad_request context_done no_job broker_failed redis_nil bad_json : Error

pub data Result (A : Type 0) : Type 0 where
  ok : A → Result A
  err : Error → Result A

pub record TxState : Type 0 where
  pub db : Db
  pub faults : List Bool

abbrev pub Tx : Type 0 → Type 0
Tx A = TxState → Result A × TxState

module _ {A : Type 0} where
  abbrev pub pure : A → Tx A
  pure a s = (ok a, s)

  abbrev pub raise : Error → Tx A
  raise e s = (err e, s)

  -- One call of the driver; past the end of the list nothing breaks.
  abbrev pub run_stmt : List Bool → (Db → Result A × Db) → Db → Result A × TxState
  run_stmt [] q db = let (r, db') = q db in (r, record { db = db'; faults = [] })
  run_stmt (true ∷ rest) q db = (err db_error, record { db = db; faults = rest })
  run_stmt (false ∷ rest) q db = let (r, db') = q db in (r, record { db = db'; faults = rest })

  -- A statement, by what it does to the tables when the driver does not fail.
  unfoldable pub stmt : (Db → Result A × Db) → Tx A
  stmt q s = run_stmt s.faults q s.db

  abbrev pub or_raise : Error → Option A → Tx A
  or_raise e none = raise e
  or_raise e (some a) = pure a

-- The rest of a handler, after `if err != nil { return err }`.
abbrev pub and_then : {A B : Type 0} → Result A × TxState → (A → Tx B) → Result B × TxState
and_then (ok a, t) f = f a t
and_then (err e, t) f = (err e, t)

infixl 5 ◌>>=◌ ◌>>◌
abbrev pub ◌>>=◌ : {A B : Type 0} → Tx A → (A → Tx B) → Tx B
◌>>=◌ m f s = and_then (m s) f

abbrev pub ◌>>◌ : {A B : Type 0} → Tx A → Tx B → Tx B
m >> k = m >>= λ _. k

-- A query, and a change of the tables.
abbrev pub query : {A : Type 0} → (Db → A) → Tx A
query f = stmt λ db. (ok (f db), db)

abbrev pub exec : (Db → Db) → Tx ⊤
exec f = stmt λ db. (ok tt, f db)

abbrev pub raise_if : Bool → Error → Tx ⊤
raise_if true e = raise e
raise_if false e = pure tt

-- What Commit makes of the outcome: it is applied; it is lost with an error; or it is applied and
-- the error is in the reply.
abbrev pub commit : {A : Type 0} → List Bool → A → Db → Db → Result A × TxState
commit [] a old new = (ok a, record { db = new; faults = [] })
commit (false ∷ rest) a old new = (ok a, record { db = new; faults = rest })
commit (true ∷ []) a old new = (err db_error, record { db = old; faults = [] })
commit (true ∷ false ∷ rest) a old new = (err db_error, record { db = old; faults = rest })
commit (true ∷ true ∷ rest) a old new = (err db_error, record { db = new; faults = rest })

abbrev pub finish : {A : Type 0} → Db → Result A × TxState → Result A × TxState
finish old (ok a, t) = commit t.faults a old t.db
finish old (err e, t) = (err e, record t { db = old })

-- `tx := pool.Begin(); defer tx.Rollback(); …; tx.Commit()`, where the body returns the error of
-- any statement.
unfoldable pub transact : {A : Type 0} → Tx A → Tx A
unfolding stmt
transact body s = finish s.db ((query (λ db. tt) >> body) s)

-- The same where the body may also `return` without an error and without Commit: the Boolean says
-- whether it reached Commit.
abbrev pub finish_if : {A : Type 0} → Db → Result (A × Bool) × TxState → Result A × TxState
finish_if old (ok (a, true), t) = commit t.faults a old t.db
finish_if old (ok (a, false), t) = (ok a, record t { db = old })
finish_if old (err e, t) = (err e, record t { db = old })

unfoldable pub transact_if : {A : Type 0} → Tx (A × Bool) → Tx A
unfolding stmt
transact_if body s = finish_if s.db ((query (λ db. tt) >> body) s)
