-- ===== src/Worker/Loop/Keeps.antt =====
-- What one round of payflow-app/cmd/worker/main.go keeps, from what its calls keep.
use payflow_payments_ops_pla.Base.{ℕ, Option, none, some, arith}
use payflow_payments_ops_pla.Text.{Text}
use payflow_payments_ops_pla.Store.{Db, Env, Delivery, Result, ok, err, stmt, exec, transact}
use payflow_payments_ops_pla.Queue.{World, W, Job, lift}
use payflow_payments_ops_pla.Queue.Keeps.{KeepsW, worker_rules}
use payflow_payments_ops_pla.Http.Keeps.{KeepsTx}
use payflow_payments_ops_pla.Payment
use payflow_payments_ops_pla.Refund
use payflow_payments_ops_pla.Webhook.{insert_delivery}
use payflow_payments_ops_pla.Webhook.Keeps.{
  enqueue_payment_settled-Keeps, enqueue_refund_succeeded-Keeps,
}
use payflow_payments_ops_pla.Webhook.{enqueue_payment_settled, enqueue_refund_succeeded}
use payflow_payments_ops_pla.Webhook.Process.{update_pending}
use payflow_payments_ops_pla.Webhook.Process.Keeps.{process_delivery-Keeps}
use payflow_payments_ops_pla.Worker.{try_process_outbox}
use payflow_payments_ops_pla.Worker.Loop.{
  Log, outbox_failed, Round, on_error, settle_job, delivery_job, refund_job_case, dispatch, pop_job,
  after_outbox, worker_round,
}

-- The calls that a round makes after its turn at the outbox.
pub record RoundCalls (P : Db → Type 0) (env : Env) (r : Round) : Type 0 where
  pub settles : (pid : ℕ) → KeepsTx P (Payment.settle_mock r.draw.now pid)
  pub refunds : (rid : ℕ) → KeepsTx P (Refund.settle_mock env r.draw.now rid)
  pub inserts : (d : Delivery) → KeepsTx P (transact (stmt (insert_delivery d)))
  pub updates :
      (did : ℕ) (change : Delivery → Delivery)
      → KeepsTx P (transact (exec (update_pending did change)))
  pub publishes : (job : Job) → KeepsW P (r.publish job)

module _ (P : Db → Type 0) where
  logged-Keeps :
      {A : Type 0} (failed : Log) (rest : A → W Log) (out : Result A × World)
      → ((a : A) → KeepsW P (rest a))
      → P out.1.store.db
      → P
          (elim (out.0) as (λ _. Result Log × World) [
            | ok a ↦ rest a out.1
            | err _ ↦ (ok failed, out.1)
          ]).1.store.db
  logged-Keeps failed rest (ok a, w) h before = (h a).keeps w before
  logged-Keeps failed rest (err e, w) h before = before

  on_error-KeepsW :
      {A : Type 0} (m : W A) (failed : Log) (rest : A → W Log)
      → KeepsW P m
      → ((a : A) → KeepsW P (rest a))
      → KeepsW P (on_error m failed rest)
  unfolding on_error
  on_error-KeepsW m failed rest hm hr = record {
    keeps = λ w before. logged-Keeps failed rest (m w) hr (hm.keeps w before);
  }

  module _ (env : Env) (r : Round) (calls : RoundCalls P env r) where
    settled-Keeps : (pid : ℕ) → KeepsW P (enqueue_payment_settled env r.draw r.publish pid)
    settled-Keeps pid =
        enqueue_payment_settled-Keeps P calls.inserts r.publish calls.publishes env r.draw pid

    refunded-Keeps : (rid : ℕ) → KeepsW P (enqueue_refund_succeeded env r.draw r.publish rid)
    refunded-Keeps rid =
        enqueue_refund_succeeded-Keeps P calls.inserts r.publish calls.publishes env r.draw rid

    settle_job-Keeps : (id : ℕ) → KeepsW P (settle_job env r id)
    unfolding settle_job
    settle_job-Keeps id =
        search (worker_rules, on_error-KeepsW, calls.settles, settled-Keeps) depth 10

    delivery_job-Keeps : (id : ℕ) → KeepsW P (delivery_job env r id)
    unfolding delivery_job
    delivery_job-Keeps id =
        search (worker_rules, on_error-KeepsW, process_delivery-Keeps P calls.updates) depth 10

    refund_job_case-Keeps : (id : ℕ) → KeepsW P (refund_job_case env r id)
    unfolding refund_job_case
    refund_job_case-Keeps id =
        search (worker_rules, on_error-KeepsW, calls.refunds, refunded-Keeps) depth 10

    dispatch-Keeps : (key : Text) (id : ℕ) → KeepsW P (dispatch env r key id)
    unfolding dispatch
    dispatch-Keeps key id =
        search (worker_rules, settle_job-Keeps, delivery_job-Keeps, refund_job_case-Keeps) depth 10

    pop_job-Keeps : (popped : Result (Text × ℕ)) → KeepsW P (pop_job env r popped)
    unfolding pop_job
    pop_job-Keeps (ok (key, id)) = dispatch-Keeps key id
    pop_job-Keeps (err e) = record { keeps = λ w before. ground (arith, before) }

    after_outbox-Keeps : (pid rid : Option ℕ) → KeepsW P (after_outbox env r pid rid)
    unfolding after_outbox
    after_outbox-Keeps (some pid) rid =
        search (worker_rules, on_error-KeepsW, settled-Keeps) depth 8
    after_outbox-Keeps none (some rid) =
        search (worker_rules, on_error-KeepsW, refunded-Keeps) depth 8
    after_outbox-Keeps none none = pop_job-Keeps _

    pub worker_round-Keeps :
        (w : World)
        → P (try_process_outbox env r.locked r.draw.now w.store).1.db
        → P (worker_round env r w).1.store.db
    unfolding worker_round on_error
    worker_round-Keeps w before =
        logged-Keeps outbox_failed (λ done. after_outbox env r done.payment_id done.refund_id)
          (lift (try_process_outbox env r.locked r.draw.now) w)
          (λ done. after_outbox-Keeps done.payment_id done.refund_id) before
