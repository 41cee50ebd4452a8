-- ===== src/Payment/Outcome.antt =====
-- payflow-app/internal/payment/payment.go: what Create leaves behind, whatever calls of the database
-- fail.
use payflow_payments_ops_pla.Base.{
  ℕ, ◌≡◌, inl, inr, ◌⊎◌, ℤ, Bool, true, false, Option-cases, some, List, [], ◌∷◌, find, ◌<◌,
  pos_part, ap, sym, ◌∙◌, refl, Bool-cases, arith,
}
use payflow_payments_ops_pla.Text.{Text, text_eq}
use payflow_payments_ops_pla.Store.{
  Db, Env, Draw, Payment, Error, db_error, invalid_input, idempotency_mismatch, Result, ok, err,
  TxState,
}
use payflow_payments_ops_pla.Store.Faults.{clean, at}
use payflow_payments_ops_pla.Store.Atomic.{Atomic, Atomic-cases, or_rollback-err}
use payflow_payments_ops_pla.Payment.{
  is_valid_create, same_key, request_fingerprint, new_payment, normalize, create_tx, create,
}
use payflow_payments_ops_pla.Payment.Made.{Made, is_taken, create_tx-refused, create_tx-Made}
use payflow_payments_ops_pla.Payment.Safety.{create_payment-Atomic}
use payflow_payments_ops_pla.Payment.Runs.{
  replayed, clean-create, create-invalid, create_tx-replay, create_tx-mismatch, create-success,
  create_tx-fresh, create_tx-found,
}

-- The list of what fails is empty.
abbrev pub is_nil : List Bool → Bool
is_nil [] = true
is_nil (b ∷ bs) = false

module _ (env : Env) (draw : Draw) (tid : ℕ) (key : Text) (amount : ℤ) (raw : Text) where
  abbrev cur : Text
  cur = normalize env raw

  -- Why Create returns an error: the input is not valid; the key stands with another fingerprint; the
  -- database drew an id that is taken; or a call of the database failed, where the list `fs`
  -- of what fails is not empty.
  pub data Refusal (fs : List Bool) (old : Db) (e : Error) : Type 0 where
    invalid : is_valid_create amount raw key ≡ false → e ≡ invalid_input → Refusal fs old e
    mismatch :
        (q : Payment)
        → find (same_key tid key) old.payments ≡ some q
        → text_eq q.request_hash (request_fingerprint env amount cur) ≡ false
        → e ≡ idempotency_mismatch
        → Refusal fs old e
    taken : is_taken draw old ≡ true → e ≡ db_error → Refusal fs old e
    failure : is_nil fs ≡ false → e ≡ db_error → Refusal fs old e

  -- The four ways in which Create ends: with a payment made, and reported as such or as a failure
  -- of the database; with the payment that is there; with an error and nothing changed.
  pub data Outcome (fs : List Bool) (old : Db) (out : Result (Payment × Bool) × TxState)
      : Type 0 where
    created :
        Made env draw tid key amount cur old out.1.db
        → out.0 ≡ ok (new_payment env draw tid key amount cur, true)
        → Outcome fs old out
    unsure :
        Made env draw tid key amount cur old out.1.db
        → is_nil fs ≡ false
        → out.0 ≡ err db_error
        → Outcome fs old out
    found :
        (q : Payment)
        → find (same_key tid key) old.payments ≡ some q
        → text_eq q.request_hash (request_fingerprint env amount cur) ≡ true
        → out.0 ≡ ok (replayed env draw tid key amount cur old q, false)
        → out.1.db ≡ old
        → Outcome fs old out
    refused : (e : Error) → Refusal fs old e → out.0 ≡ err e → out.1.db ≡ old → Outcome fs old out

  valid-positive : is_valid_create amount raw key ≡ true → 0 < pos_part amount
  unfolding is_valid_create
  valid-positive valid = ground arith

  -- The errors of Create where no call fails.
  clean-Refusal :
      (fs : List Bool) (db : Db) (e : Error)
      → (clean (create env draw tid key amount raw) db).0 ≡ err e
      → Refusal fs db e
  clean-Refusal fs db e run = elim (Bool-cases (is_valid_create amount raw key)) [
    | inr bad ↦
        let known = create-invalid env draw tid key amount raw db bad in
        invalid bad (ground (arith, known))
    | inl valid ↦
        let tx : (clean (create_tx env draw tid key amount cur) db).0 ≡ err e =
          or_rollback-err db (clean (create_tx env draw tid key amount cur) db) e
            (ap (λ x. x.0) (sym (clean-create env draw tid key amount raw db valid)) ∙ run) in
        elim (Option-cases (find (same_key tid key) db.payments)) [
          | inl missing ↦
              let facts =
                create_tx-refused env draw tid key amount cur db e missing (valid-positive valid)
                  tx in
              taken facts.0 facts.1
          | inr (q, there) ↦
              elim (Bool-cases (text_eq q.request_hash (request_fingerprint env amount cur))) [
                | inl same ↦
                    let known = create_tx-replay env draw tid key amount cur db q there same in
                    absurd (ground (arith, known))
                | inr other ↦
                    let known = create_tx-mismatch env draw tid key amount cur db q there other in
                    mismatch q there other (ground (arith, known))
              ]
        ]
  ]

  tx-Outcome :
      (fs : List Bool) (db : Db) (x : Payment × Bool) (out : Result (Payment × Bool) × TxState)
      → clean (create_tx env draw tid key amount cur) db ≡ (ok x, out.1.db)
      → (out.0 ≡ ok x) ⊎ ((out.0 ≡ err db_error) × (is_nil fs ≡ false))
      → Outcome fs db out
  tx-Outcome fs db (p, is_new) out run reply =
      elim (Option-cases (find (same_key tid key) db.payments)) [
        | inl missing ↦
            let made =
              create_tx-Made env draw tid key amount cur db out.1.db (p, is_new) missing run in
            let facts =
              create_tx-fresh env draw tid key amount cur db p is_new out.1.db missing run in
            elim reply [
              | inl done ↦ created made (ground (arith, done, facts.0, facts.1))
              | inr (lost, failing) ↦ unsure made failing lost
            ]
        | inr (q, there) ↦
            let facts =
              create_tx-found env draw tid key amount cur db q p is_new out.1.db there run in
            elim reply [
              | inl done ↦ found q there facts.3 (ground (arith, done, facts.0, facts.1)) facts.2
              | inr (lost, failing) ↦ refused db_error (failure failing refl) lost facts.2
            ]
      ]

  -- The same, from the run without failures, with the reply that `fs` allows.
  create-Outcome :
      (fs : List Bool) (db : Db) (out : Result (Payment × Bool) × TxState)
      → Atomic db (clean (create env draw tid key amount raw) db) out
      → (out.0 ≡ (clean (create env draw tid key amount raw) db).0) ⊎ (is_nil fs ≡ false)
      → Outcome fs db out
  create-Outcome fs db out ends how =
      elim (Atomic-cases db (clean (create env draw tid key amount raw) db) out ends) [
        | inl (x, run, reply) ↦
            tx-Outcome fs db x out (create-success env draw tid key amount raw db x out.1.db run).1
              (elim reply [
                | inl done ↦ inl done
                | inr lost ↦ elim how [
                  | inl same ↦ absurd (ground (arith, same, run, lost))
                  | inr failing ↦ inr (lost, failing)
                ]
              ])
        | inr (e, reply, same, why) ↦
            refused e
              (elim why [
                | inl known ↦ clean-Refusal fs db e known
                | inr driver ↦ elim how [
                  | inl told ↦ clean-Refusal fs db e (sym told ∙ reply)
                  | inr failing ↦ failure failing driver
                ]
              ])
              reply same
      ]

-- Whatever calls of the database fail, Create ends in one of four ways: the key was new, the
-- payment, its entry in the ledger, its audit entry and its open row of the outbox are all written,
-- and it returns the payment as created; or the same, and it returns a database error, which it does
-- only if the list `fs` of what fails is not empty; or the tables are as before, and it returns the payment
-- stored under the key, whose fingerprint is that of the request, as not created; or the tables are
-- as before, and it returns an error, which is invalid input only for invalid input, a mismatch only
-- for a key that stands with another fingerprint, and else a database error, which it is only if an
-- id drawn by the database is taken or `fs` is not empty.
pub create_payment-Outcome :
    (env : Env) (draw : Draw) (tid : ℕ) (key : Text) (amount : ℤ) (raw : Text) (db : Db)
    (fs : List Bool)
    → Outcome env draw tid key amount raw fs db (create env draw tid key amount raw (at db fs))
create_payment-Outcome env draw tid key amount raw db [] =
    create-Outcome env draw tid key amount raw [] db (create env draw tid key amount raw (at db []))
      (create_payment-Atomic env draw tid key amount raw db []) (inl refl)
create_payment-Outcome env draw tid key amount raw db (b ∷ fs) =
    create-Outcome env draw tid key amount raw (b ∷ fs) db
      (create env draw tid key amount raw (at db (b ∷ fs)))
      (create_payment-Atomic env draw tid key amount raw db (b ∷ fs)) (inr refl)
