-- ===== src/Webhook/Process/Outcome.antt =====
-- What ProcessDelivery (payflow-app/internal/webhook/webhook.go) comes to when the database works.
use payflow_payments_ops_pla.Base.{
  ℕ, zero, suc, ◌+◌, ◌<◌, ◌≤◌, ◌≡◌, refl, ◌∙◌, inl, inr, ◌≢◌, true, false, none, some, ◌∷◌, find,
  find-update, find_sound, ◌&&◌, ◌==◌, List, length, arith, if◌then◌else◌, Option-cases,
}
use native.Mathlib.Nat.{zero-add}
use payflow_payments_ops_pla.Text.{Text}
use payflow_payments_ops_pla.Store.{
  Db, Env, Delivery, Tenant, pending, succeeded, dlq, is_pending, ok,
}
use payflow_payments_ops_pla.Queue.{World, Job, Request}
use payflow_payments_ops_pla.Webhook.{Net, has_delivery_id}
use payflow_payments_ops_pla.Webhook.Process.{
  update_pending, delivered, attempted, failure_of, backoff_ms, request_for, round, rounds,
  process_delivery,
}
use payflow_payments_ops_pla.Webhook.Process.Rounds.{
  Ready, limit, loaded, world, round-delivered, round-exhausted, round-again,
}
use payflow_payments_ops_pla.Webhook.Process.Final.{final, tries, final-all_fail, final-first}

module _ (net : Net) (now did : ℕ) (db : Db) (d : Delivery) (t : Tenant) (secret : Text)
    (ready : Ready net did db d t secret) (waiting : is_pending d.status ≡ true)
    (change : Delivery → Delivery)
    (same_id : (x : Delivery) → has_delivery_id did (change x) ≡ has_delivery_id did x) where
  -- The write changes the row, since it is pending.
  found-update :
      find (has_delivery_id did) (update_pending did change db).webhook_deliveries ≡ some (change d)
  found-update = ground (
    arith,
    ready.found,
    find_sound (has_delivery_id did) db.webhook_deliveries d,
    find-update (has_delivery_id did) (λ x. has_delivery_id did x && is_pending x.status) change
        db.webhook_deliveries same_id,
  )

rounds-stop :
    (fuel : ℕ) (net : Net) (env : Env) (default now n did : ℕ) (w w' : World)
    → round net env default now n did w ≡ (ok false, w')
    → rounds (suc fuel) net env default now n did w ≡ (ok (some tt), w')
unfolding rounds
rounds-stop fuel net env default now n did w w' e = ground (arith, e)

rounds-go :
    (fuel : ℕ) (net : Net) (env : Env) (default now n did : ℕ) (w w' : World)
    → round net env default now n did w ≡ (ok true, w')
    → rounds (suc fuel) net env default now n did w ≡ rounds fuel net env default now (n + 1) did w'
unfolding rounds
rounds-go fuel net env default now n did w w' e = ground (arith, e)

-- The loop, from any round of a delivery that has `k + 1` attempts left.
rounds-final :
    (net : Net) (env : Env) (default now did : ℕ)
    → ((m : ℕ) → net.cancelled m ≡ false)
    → (k n fuel : ℕ) (db : Db) (published : List Job) (sent : List Request) (waits : List ℕ)
      (d : Delivery) (t : Tenant) (secret : Text)
    → Ready net did db d t secret
    → is_pending d.status ≡ true
    → limit default d ≡ d.attempt_count + suc k
    → k < fuel
    → (w' : World) × (rounds fuel net env default now n did (world db published sent waits)
        ≡ (ok (some tt), w'))
      × (find (has_delivery_id did) w'.store.db.webhook_deliveries ≡ some (final net now k n d))
      × (length w'.sent ≡ length sent + tries net k n)
unfolding final tries
rounds-final net env default now did live k n zero db published sent waits d t secret ready waiting
      left more =
    elim more [ ]
rounds-final net env default now did live zero n (suc fuel) db published sent waits d t secret ready
      waiting left more =
    elim (Option-cases (failure_of (net.reply n))) [
      | inl good ↦ (
        _,
        rounds-stop fuel net env default now n did _ _ (
            round-delivered net env default now n did db published sent waits d t secret ready
              waiting (ground arith) good),
        ground (
          arith,
          good,
          found-update net now did db d t secret ready waiting (delivered now) (λ x. refl),
        ),
        ground (arith, good),
      )
      | inr (message, bad) ↦ (
        _,
        rounds-stop fuel net env default now n did _ _ (
            round-exhausted net env default now n did db published sent waits d t secret ready
              waiting (ground arith) message bad (ground arith)),
        ground (
          arith,
          bad,
          found-update net now did db d t secret ready waiting
              (attempted now (d.attempt_count + 1) message dlq) (λ x. refl),
        ),
        ground (arith, bad),
      )
    ]
rounds-final net env default now did live (suc k) n (suc fuel) db published sent waits d t secret
      ready waiting left more =
    elim (Option-cases (failure_of (net.reply n))) [
      | inl good ↦ (
        _,
        rounds-stop fuel net env default now n did _ _ (
            round-delivered net env default now n did db published sent waits d t secret ready
              waiting (ground arith) good),
        ground (
          arith,
          good,
          found-update net now did db d t secret ready waiting (delivered now) (λ x. refl),
        ),
        ground (arith, good),
      )
      | inr (message, bad) ↦
          let change = attempted now (d.attempt_count + 1) message pending in
          let db' = update_pending did change db in
          let step =
            round-again net env default now n did db published sent waits d t secret ready waiting
              (ground arith) message bad (ground arith) (live n) in
          let ready' : Ready net did db' (change d) t secret = record {
            found = found-update net now did db d t secret ready waiting change (λ x. refl);
            tenant = ready.tenant;
            has_secret = ready.has_secret;
            not_blank = ready.not_blank;
            url = ready.url;
          } in
          let (w', run, row, count) =
            rounds-final net env default now did live k (n + 1) fuel db' published
              (request_for net env n (loaded d secret) ∷ sent)
              (backoff_ms (d.attempt_count + 1) ∷ waits) (change d) t secret ready' refl
              (omega (arith, left)) (omega arith) in
          (
            w',
            rounds-go fuel net env default now n did _ _ step ∙ run,
            ground (arith, bad, row),
            ground (arith, bad, count),
          )
    ]

-- A pending delivery with `k + 1` attempts left, whose tenant has a secret and whose URL parses,
-- with a database that works, a context that is not cancelled and more than `k` units of fuel:
-- where every reply is a failure, ProcessDelivery ends after exactly `k + 1` requests, and the row
-- is in the DLQ with all its attempts used.
pub process_delivery-exhausts :
    (net : Net) (env : Env) (default now did k fuel : ℕ) (db : Db) (published : List Job)
    (sent : List Request) (waits : List ℕ) (d : Delivery) (t : Tenant) (secret : Text)
    → Ready net did db d t secret
    → is_pending d.status ≡ true
    → limit (if default == 0 then 5 else default) d ≡ d.attempt_count + suc k
    → k < fuel
    → ((m : ℕ) → net.cancelled m ≡ false)
    → ((m : ℕ) → failure_of (net.reply m) ≢ none)
    → (w' : World) × (d' : Delivery) × (process_delivery fuel net env default now did
          (world db published sent waits)
        ≡ (ok (some tt), w'))
      × (find (has_delivery_id did) w'.store.db.webhook_deliveries ≡ some d')
      × (d'.status ≡ dlq)
      × (d'.attempt_count ≡ d.attempt_count + suc k)
      × (length w'.sent ≡ length sent + suc k)
unfolding process_delivery
process_delivery-exhausts net env default now did k fuel db published sent waits d t secret ready
      waiting left more live bad =
    let (w', run, row, count) =
      rounds-final net env (if default == 0 then 5 else default) now did live k 0 fuel db published
        sent waits d t secret ready waiting left more in
    let (parked, used, all) = final-all_fail net now bad k 0 d in
    (w', final net now k 0 d, run, row, parked, used, omega (arith, count, all))

-- A pending delivery with `k + 1` attempts left, whose tenant has a secret and whose URL parses,
-- with a database that works, a context that is not cancelled and more than `k` units of fuel:
-- where reply `j`, with `j` at most `k`, is the first 2xx, ProcessDelivery ends after `j + 1`
-- requests, and the row has succeeded with its `j` failures counted.
pub process_delivery-delivers :
    (net : Net) (env : Env) (default now did j k fuel : ℕ) (db : Db) (published : List Job)
    (sent : List Request) (waits : List ℕ) (d : Delivery) (t : Tenant) (secret : Text)
    → Ready net did db d t secret
    → is_pending d.status ≡ true
    → limit (if default == 0 then 5 else default) d ≡ d.attempt_count + suc k
    → k < fuel
    → ((m : ℕ) → net.cancelled m ≡ false)
    → j ≤ k
    → ((i : ℕ) → i < j → failure_of (net.reply i) ≢ none)
    → failure_of (net.reply j) ≡ none
    → (w' : World) × (d' : Delivery) × (process_delivery fuel net env default now did
          (world db published sent waits)
        ≡ (ok (some tt), w'))
      × (find (has_delivery_id did) w'.store.db.webhook_deliveries ≡ some d')
      × (d'.status ≡ succeeded)
      × (d'.attempt_count ≡ d.attempt_count + j)
      × (length w'.sent ≡ length sent + suc j)
unfolding process_delivery
process_delivery-delivers net env default now did j k fuel db published sent waits d t secret ready
      waiting left more live le bad good =
    let (w', run, row, count) =
      rounds-final net env (if default == 0 then 5 else default) now did live k 0 fuel db published
        sent waits d t secret ready waiting left more in
    let (done, used, all) =
      final-first net now j k 0 d le (λ i lt. rw zero-add (bad i lt)) (rw zero-add good) in
    (w', final net now k 0 d, run, row, done, used, omega (arith, count, all))
