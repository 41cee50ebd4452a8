-- ===== src/Webhook/Process/Calls.antt =====
-- The calls of one round of ProcessDelivery (payflow-app/internal/webhook/webhook.go), where they
-- succeed.
use payflow_payments_ops_pla.Base.{
  ℕ, ◌+◌, ◌≡◌, refl, ◌∙◌, ap, inl, inr, Bool, true, false, Bool-cases, Option, Option-cases, none,
  some, [], ◌∷◌, find, List, ⊤, ◌⊎◌, arith, leb,
}
use payflow_payments_ops_pla.Text.{Text}
use payflow_payments_ops_pla.Store.{
  Db, Env, Delivery, pending, is_pending, Error, Result, ok, err, stmt, exec, transact, TxState,
}
use payflow_payments_ops_pla.Store.Faults.{at}
use payflow_payments_ops_pla.Queue.{World}
use payflow_payments_ops_pla.Webhook.{Net, has_delivery_id}
use payflow_payments_ops_pla.Webhook.Process.{
  Loaded, load, update_pending, attempted, failure_of, limit_of, request_for, delivered,
  status_after, after_reply, back_off, attempt,
}

exec-ok :
    (f : Db → Db) (db : Db) (fs : List Bool) (u : ⊤) (s' : TxState)
    → transact (exec f) (at db fs) ≡ (ok u, s')
    → s'.db ≡ f db
unfolding transact stmt
exec-ok f db [] u s' h = ground arith
exec-ok f db (true ∷ fs) u s' h = absurd (ground arith)
exec-ok f db (false ∷ []) u s' h = ground arith
exec-ok f db (false ∷ true ∷ fs) u s' h = absurd (ground arith)
exec-ok f db (false ∷ false ∷ []) u s' h = ground arith
exec-ok f db (false ∷ false ∷ true ∷ []) u s' h = absurd (ground arith)
exec-ok f db (false ∷ false ∷ true ∷ true ∷ fs) u s' h = absurd (ground arith)
exec-ok f db (false ∷ false ∷ true ∷ false ∷ fs) u s' h = absurd (ground arith)
exec-ok f db (false ∷ false ∷ false ∷ fs) u s' h = ground arith

-- The row that the query of a round has read.
abbrev Read : ℕ → Db → Loaded → Type 0
Read did db l =
    (d : Delivery) × (find (has_delivery_id did) db.webhook_deliveries ≡ some d)
    × (l.attempt_count ≡ d.attempt_count)
    × (l.max_attempts ≡ d.max_attempts)
    × (l.status ≡ d.status)

load-Read :
    (did : ℕ) (db db' : Db) (l : Loaded)
    → load did db ≡ (ok (some l), db')
    → (db' ≡ db) × Read did db l
unfolding load
load-Read did db db' l h = elim (Option-cases (find (has_delivery_id did) db.webhook_deliveries)) [
  | inl missing ↦ absurd (ground (arith, missing))
  | inr (d, found) ↦ (
    ground (arith, found),
    (d, found, ground (arith, found), ground (arith, found), ground (arith, found)),
  )
]

pub stmt-load :
    (did : ℕ) (db : Db) (fs : List Bool) (l : Loaded) (s' : TxState)
    → stmt (load did) (at db fs) ≡ (ok (some l), s')
    → (s'.db ≡ db) × Read did db l
unfolding stmt
stmt-load did db [] l s' h =
    let run : load did db ≡ (ok (some l), s'.db) = ground arith in load-Read did db s'.db l run
stmt-load did db (true ∷ fs) l s' h = absurd (ground arith)
stmt-load did db (false ∷ fs) l s' h =
    let run : load did db ≡ (ok (some l), s'.db) = ground arith in load-Read did db s'.db l run

pub Result-cases :
    {A : Type 0} (r : Result A) → ((a : A) × (r ≡ ok a)) ⊎ ((e : Error) × (r ≡ err e))
Result-cases (ok a) = inl (a, refl)
Result-cases (err e) = inr (e, refl)

module _ (net : Net) (env : Env) (default now n did : ℕ) where
  after_reply-true :
      (bound count : ℕ) (failure : Option Text) (w w' : World)
      → after_reply net now n did bound count failure w ≡ (ok true, w')
      → (message : Text) × (leb bound (count + 1) ≡ false)
        × (w'.store.db ≡ update_pending did (attempted now (count + 1) message pending) w.store.db)
  unfolding after_reply back_off
  after_reply-true bound count none w w' h =
      elim (Result-cases (transact (exec (update_pending did (delivered now))) w.store).0) [
        | inl (u, done) ↦ absurd (ground (arith, done))
        | inr (e, failed) ↦ absurd (ground (arith, failed))
      ]
  after_reply-true bound count (some message) w w' h =
      let change = attempted now (count + 1) message (status_after (count + 1) bound) in
      let out = transact (exec (update_pending did change)) w.store in
      elim (Result-cases out.0) [
        | inr (e, failed) ↦ absurd (ground (arith, failed))
        | inl (u, done) ↦ elim (Bool-cases (leb bound (count + 1))) [
          | inl last ↦ absurd (ground (arith, done, last))
          | inr more ↦
              let written =
                exec-ok (update_pending did change) w.store.db w.store.faults u out.1
                  (ground (arith, done)) in
              let kept : w'.store.db ≡ out.1.db = ground (arith, done, more) in
              (
                message,
                more,
                kept
                    ∙ written
                    ∙ ap
                        (λ st. update_pending did (attempted now (count + 1) message st) w.store.db)
                        (ground (arith, more)),
              )
        ]
      ]

  pub attempt-true :
      (l : Loaded) (w w' : World)
      → attempt net env default now n did (some l) w ≡ (ok true, w')
      → (message : Text) × (leb (limit_of default l) (l.attempt_count + 1) ≡ false)
        × (is_pending l.status ≡ true)
        × (w'.store.db
            ≡ update_pending did (attempted now (l.attempt_count + 1) message pending) w.store.db)
  unfolding attempt
  attempt-true l w w' h = elim (Bool-cases (is_pending l.status)) [
    | inr closed ↦ absurd (ground (arith, closed))
    | inl live ↦
        let (w1, same, run) : (w1 : World) × (w1.store.db ≡ w.store.db)
            × (after_reply net now n did (limit_of default l) l.attempt_count
                  (failure_of (net.reply n)) w1
                ≡ (ok true, w')) =
          (record w { sent = request_for net env n l ∷ w.sent }, refl, ground (arith, live)) in
        let (message, more, kept) =
          after_reply-true (limit_of default l) l.attempt_count (failure_of (net.reply n)) w1 w'
            run in
        (message, more, live, kept)
  ]
