-- ===== src/Webhook/Process/Keeps.antt =====
-- What ProcessDelivery of payflow-app/internal/webhook/webhook.go keeps, from what its updates keep.
use payflow_payments_ops_pla.Base.{
  ℕ, zero, suc, ◌+◌, Bool, true, false, Option, none, some, ⊤, ◌==◌, if◌then◌else◌, arith,
}
use payflow_payments_ops_pla.Text.{Text}
use payflow_payments_ops_pla.Store.{Db, Env, Delivery, Result, ok, err, exec, transact, stmt}
use payflow_payments_ops_pla.Queue.{World, Request}
use payflow_payments_ops_pla.Queue.Keeps.{KeepsW, worker_rules}
use payflow_payments_ops_pla.Http.Keeps.{KeepsTx, stmt-KeepsTx}
use payflow_payments_ops_pla.Webhook.{Net}
use payflow_payments_ops_pla.Webhook.Process.{
  Loaded, load, update_pending, send, pause, back_off, after_reply, attempt, round, rounds,
  process_delivery,
}

module _ (P : Db → Type 0)
    (updates : (did : ℕ) (change : Delivery → Delivery)
      → KeepsTx P (transact (exec (update_pending did change)))) where
  load-Keeps : (did : ℕ) → KeepsTx P (stmt (load did))
  unfolding load
  load-Keeps did = stmt-KeepsTx P _ λ db before. ground arith

  send-Keeps : (request : Request) → KeepsW P (send request)
  send-Keeps request = record { keeps = λ w before. before }

  pause-Keeps : (ms : ℕ) → KeepsW P (pause ms)
  pause-Keeps ms = record { keeps = λ w before. before }

  module _ (net : Net) (env : Env) (default now did : ℕ) where
    back_off-Keeps : (n attempts : ℕ) → KeepsW P (back_off net n attempts)
    unfolding back_off
    back_off-Keeps n attempts = search (worker_rules, pause-Keeps) depth 8

    after_reply-Keeps :
        (n limit count : ℕ) (failure : Option Text)
        → KeepsW P (after_reply net now n did limit count failure)
    unfolding after_reply
    after_reply-Keeps n limit count none = search (worker_rules, updates) depth 8
    after_reply-Keeps n limit count (some message) =
        search (worker_rules, updates, back_off-Keeps) depth 10

    attempt-Keeps : (n : ℕ) (row : Option Loaded) → KeepsW P (attempt net env default now n did row)
    unfolding attempt
    attempt-Keeps n none = search worker_rules
    attempt-Keeps n (some l) =
        search (worker_rules, updates, send-Keeps, after_reply-Keeps) depth 14

    round-Keeps : (n : ℕ) → KeepsW P (round net env default now n did)
    unfolding round
    round-Keeps n = search (worker_rules, load-Keeps, attempt-Keeps) depth 8

    again-Keeps :
        (n fuel : ℕ) (out : Result Bool × World)
        → ((n : ℕ) → KeepsW P (rounds fuel net env default now n did))
        → P out.1.store.db
        → P
            (elim (out.0) as (λ _. Result (Option ⊤) × World) [
              | err e ↦ (err e, out.1)
              | ok again ↦ elim again [
                | true ↦ rounds fuel net env default now (n + 1) did out.1
                | false ↦ (ok (some tt), out.1)
              ]
            ]).1.store.db
    again-Keeps n fuel (ok true, w) h before = (h (n + 1)).keeps w before
    again-Keeps n fuel (ok false, w) h before = before
    again-Keeps n fuel (err e, w) h before = before

    rounds-Keeps : (fuel n : ℕ) → KeepsW P (rounds fuel net env default now n did)
    unfolding rounds
    rounds-Keeps zero n = record { keeps = λ w before. before }
    rounds-Keeps (suc fuel) n = record {
      keeps = λ w before.
          again-Keeps n fuel (round net env default now n did w) (λ m. rounds-Keeps fuel m)
            ((round-Keeps n).keeps w before);
    }

  pub process_delivery-Keeps :
      (fuel : ℕ) (net : Net) (env : Env) (default now did : ℕ)
      → KeepsW P (process_delivery fuel net env default now did)
  unfolding process_delivery
  process_delivery-Keeps fuel net env default now did =
      rounds-Keeps net env (if default == 0 then 5 else default) now did fuel 0
