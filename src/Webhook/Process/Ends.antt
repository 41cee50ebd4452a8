-- ===== src/Webhook/Process/Ends.antt =====
-- The loop of ProcessDelivery (payflow-app/internal/webhook/webhook.go), whatever fails.
use payflow_payments_ops_pla.Base.{
  ℕ, zero, suc, ◌+◌, ◌<◌, ◌≤◌, ◌≡◌, refl, ◌∙◌, ap, subst, inl, inr, true, false, Bool-cases, Option,
  Option-cases, some, find, find-update, find_sound, ◌&&◌, ◌==◌, ⊤, ◌⊎◌, arith, if◌then◌else◌, leb,
}
use payflow_payments_ops_pla.Text.{Text}
use payflow_payments_ops_pla.Store.{
  Env, Delivery, pending, is_pending, Error, Result, ok, err, stmt,
}
use payflow_payments_ops_pla.Queue.{World}
use payflow_payments_ops_pla.Webhook.{Net, has_delivery_id}
use payflow_payments_ops_pla.Webhook.Process.{
  load, update_pending, attempted, attempt, round, rounds, process_delivery,
}
use payflow_payments_ops_pla.Webhook.Process.Rounds.{limit}
use payflow_payments_ops_pla.Webhook.Process.Calls.{stmt-load, Result-cases, attempt-true}

module _ (net : Net) (env : Env) (default now n did : ℕ) where
  round-true :
      (w w' : World)
      → round net env default now n did w ≡ (ok true, w')
      → (d : Delivery) × (message : Text) × (find
            (has_delivery_id did)
            w.store.db.webhook_deliveries
          ≡ some d)
        × (leb (limit default d) (d.attempt_count + 1) ≡ false)
        × (is_pending d.status ≡ true)
        × (w'.store.db
            ≡ update_pending did (attempted now (d.attempt_count + 1) message pending) w.store.db)
  unfolding round attempt
  round-true w w' h = elim (Result-cases (stmt (load did) w.store).0) [
    | inr (e, failed) ↦ absurd (ground (arith, failed))
    | inl (row, read) ↦ elim (Option-cases row) [
      | inl missing ↦ absurd (ground (arith, read, missing))
      | inr (l, there) ↦
          let s1 = (stmt (load did) w.store).1 in
          let (same, (d, found, count, bound, state)) =
            stmt-load did w.store.db w.store.faults l s1 (ground (arith, read, there)) in
          let run : attempt net env default now n did (some l) (record w { store = s1 })
              ≡ (ok true, w') =
            ground (arith, read, there) in
          let (message, more, live, kept) =
            attempt-true net env default now n did l (record w { store = s1 }) w' run in
          (
            d,
            message,
            found,
            ground (arith, count, bound),
            ground (arith, state),
            kept
                ∙ ap (update_pending did (attempted now (l.attempt_count + 1) message pending)) same
                ∙ ap (λ c. update_pending did (attempted now (c + 1) message pending) w.store.db)
                    count,
          )
    ]
  ]

-- At most `k` more rounds follow the first.
abbrev Left : ℕ → ℕ → ℕ → World → Type 0
Left k default did w =
    (d : Delivery)
    → find (has_delivery_id did) w.store.db.webhook_deliveries ≡ some d
    → limit default d ≤ d.attempt_count + k

abbrev pub Returned : Result (Option ⊤) → Type 0
Returned r = (r ≡ ok (some tt)) ⊎ ((e : Error) × (r ≡ err e))

-- A round that asks for another has used one of them.
round-Left :
    (net : Net) (env : Env) (default now n did k : ℕ) (w w' : World)
    → round net env default now n did w ≡ (ok true, w')
    → Left k default did w
    → (j : ℕ) × (k ≡ suc j) × Left j default did w'
round-Left net env default now n did zero w w' run left =
    let (d, message, found, more, live, kept) = round-true net env default now n did w w' run in
    absurd (ground (arith, left d found))
round-Left net env default now n did (suc j) w w' run left =
    let (d, message, found, more, live, kept) = round-true net env default now n did w w' run in
    let change = attempted now (d.attempt_count + 1) message pending in
    let row : find (has_delivery_id did) w'.store.db.webhook_deliveries ≡ some (change d) =
      ap (λ db. find (has_delivery_id did) db.webhook_deliveries) kept
      ∙ ground (
        arith,
        found,
        live,
        find_sound (has_delivery_id did) w.store.db.webhook_deliveries d,
        find-update (has_delivery_id did) (λ x. has_delivery_id did x && is_pending x.status) change
            w.store.db.webhook_deliveries (λ x. refl),
      ) in
    (
      j,
      refl,
      λ d' found'.
          let same : change d ≡ d' = ground (arith, row, found') in
          subst (λ x. limit default x ≤ x.attempt_count + j) same (omega (arith, left d found)),
    )

rounds-Returned :
    (net : Net) (env : Env) (default now did k fuel n : ℕ) (w : World)
    → Left k default did w
    → k < fuel
    → Returned (rounds fuel net env default now n did w).0
unfolding rounds
rounds-Returned net env default now did k zero n w left more = elim more [ ]
rounds-Returned net env default now did k (suc fuel) n w left more =
    let out = round net env default now n did w in
    elim (Result-cases out.0) [
      | inr (e, failed) ↦ inr (e, ground (arith, failed))
      | inl (again, done) ↦ elim (Bool-cases again) [
        | inr last ↦ inl (ground (arith, done, last))
        | inl next ↦
            let (j, less, rest) =
              round-Left net env default now n did k w out.1 (ground (arith, done, next)) left in
            let end =
              rounds-Returned net env default now did j fuel (n + 1) out.1 rest
                (omega (arith, less)) in
            subst Returned (ground (arith, done, next)) end
      ]
    ]

-- ProcessDelivery returns, with nil or with an error, whatever calls of the database fail, whatever the
-- receiver replies and whatever the tables hold: where the row, if there is one, has at most `k`
-- attempts left, more than `k` units of fuel are enough.
pub process_delivery-Returned :
    (net : Net) (env : Env) (default now did k fuel : ℕ) (w : World)
    → ((d : Delivery)
        → find (has_delivery_id did) w.store.db.webhook_deliveries ≡ some d
        → limit (if default == 0 then 5 else default) d ≤ d.attempt_count + k)
    → k < fuel
    → Returned (process_delivery fuel net env default now did w).0
unfolding process_delivery
process_delivery-Returned net env default now did k fuel w left more =
    rounds-Returned net env (if default == 0 then 5 else default) now did k fuel 0 w left more
