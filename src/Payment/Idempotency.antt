-- ===== src/Payment/Idempotency.antt =====
-- payflow-app/internal/payment/payment.go: Create under one idempotency key, called again.
use payflow_payments_ops_pla.Base.{
  ℕ, ◌≡◌, ◌≢◌, refl, sym, ◌∙◌, inl, inr, ℤ, Bool, true, false, some, find, Option-cases, arith,
}
use payflow_payments_ops_pla.Text.{Text, text_eq, text_eq_refl, text_eq-other}
use payflow_payments_ops_pla.Store.{Db, Env, Draw, Payment, ok, err, idempotency_mismatch}
use payflow_payments_ops_pla.Store.Faults.{clean}
use payflow_payments_ops_pla.Payment.{
  is_valid_create, normalize, request_fingerprint, same_key, create_tx, create,
}
use payflow_payments_ops_pla.Payment.Runs.{
  accepted, replayed, clean-create, create-success, create_tx-replay, create_tx-mismatch,
  create_tx-fresh, create_tx-found,
}

module _ (env : Env) (draw : Draw) (tid : ℕ) (key : Text) (amount : ℤ) (cur : Text) (db db' : Db)
    (p : Payment) (created : Bool)
    (run : clean (create_tx env draw tid key amount cur) db ≡ (ok (p, created), db')) where
  -- After a success the row under the key carries the fingerprint of the request, and is what a
  -- replay returns.
  stored :
      (q : Payment) × (find (same_key tid key) db'.payments ≡ some q)
      × (text_eq q.request_hash (request_fingerprint env amount cur) ≡ true)
      × (replayed env draw tid key amount cur db q ≡ p)
  stored = elim (Option-cases (find (same_key tid key) db.payments)) [
    | inl missing ↦
        let fresh = create_tx-fresh env draw tid key amount cur db p created db' missing run in
        (
          accepted env draw tid key amount cur db,
          ground (arith, fresh.4, text_eq_refl key),
          text_eq_refl (request_fingerprint env amount cur),
          sym fresh.1,
        )
    | inr (q, found) ↦
        let again = create_tx-found env draw tid key amount cur db q p created db' found run in
        (q, ground (arith, again), again.3, sym again.1)
  ]

-- Without failures: after a Create that succeeded, a second one with the same key, the same amount
-- and a currency that is valid and reads the same returns the payment of the first, not created,
-- and changes nothing.
pub repeat_payment :
    (env : Env) (draw later : Draw) (tid : ℕ) (key : Text) (amount : ℤ) (raw again : Text)
    (db db' : Db) (p : Payment) (created : Bool)
    → clean (create env draw tid key amount raw) db ≡ (ok (p, created), db')
    → is_valid_create amount again key ≡ true
    → normalize env again ≡ normalize env raw
    → clean (create env later tid key amount again) db' ≡ (ok (p, false), db')
repeat_payment env draw later tid key amount raw again db db' p created run valid same =
    let inside = create-success env draw tid key amount raw db (p, created) db' run in
    let row = stored env draw tid key amount (normalize env raw) db db' p created inside.1 in
    let second =
      create_tx-replay env later tid key amount (normalize env raw) db' row.0 row.1 row.2 in
    clean-create env later tid key amount again db' valid
    ∙ rw same (rw second (ground (arith, row.3)))

-- Without failures: after a Create that succeeded, a second one with the same key, input that is
-- valid, and another fingerprint is an idempotency mismatch, and changes nothing.
pub repeat_payment_conflict :
    (env : Env) (draw later : Draw) (tid : ℕ) (key : Text) (amount amount2 : ℤ) (raw raw2 : Text)
    (db db' : Db) (p : Payment) (created : Bool)
    → clean (create env draw tid key amount raw) db ≡ (ok (p, created), db')
    → is_valid_create amount2 raw2 key ≡ true
    → request_fingerprint env amount2 (normalize env raw2)
      ≢ request_fingerprint env amount (normalize env raw)
    → clean (create env later tid key amount2 raw2) db' ≡ (err idempotency_mismatch, db')
repeat_payment_conflict env draw later tid key amount amount2 raw raw2 db db' p created run valid
      differ =
    let inside = create-success env draw tid key amount raw db (p, created) db' run in
    let row = stored env draw tid key amount (normalize env raw) db db' p created inside.1 in
    let other = text_eq-other row.0.request_hash _ _ row.2 differ in
    let second =
      create_tx-mismatch env later tid key amount2 (normalize env raw2) db' row.0 row.1 other in
    clean-create env later tid key amount2 raw2 db' valid ∙ rw second refl
