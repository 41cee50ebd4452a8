-- ===== src/Worker/Loop.antt =====
-- One round of the `for` in main of payflow-app/cmd/worker/main.go.
pub mod Keeps
use payflow_payments_ops_pla.Base.{ℕ, Bool, Option, none, some, ⊤, if◌then◌else◌}
use payflow_payments_ops_pla.Text.{Text, text_eq}
use payflow_payments_ops_pla.Store.{Env, Draw, no_job, Result, ok, err}
use payflow_payments_ops_pla.Queue.{
  W, Job, PopReply, brpop_job, settlement_key, default_webhook_key, default_refund_key, lift, pure,
}
use payflow_payments_ops_pla.Webhook.{Net, enqueue_payment_settled, enqueue_refund_succeeded}
use payflow_payments_ops_pla.Webhook.Process.{process_delivery}
use payflow_payments_ops_pla.Payment
use payflow_payments_ops_pla.Refund
use payflow_payments_ops_pla.Worker.{try_process_outbox}

-- The line that a round logs last; the errors stay in the log.
pub data Log : Type 0 where
  outbox_failed webhook_enqueue_failed payment_settled refund_webhook_enqueue_failed : Log
  refund_settled idle queue_pop_failed settle_failed payment_settled_queue : Log
  webhook_delivery_failed webhook_delivery_done refund_settle_failed refund_settled_queue : Log
  unknown_queue_key : Log

-- `if err := m; err != nil { log failed; continue }`, then the rest.
on_error : {A : Type 0} → W A → Log → (A → W Log) → W Log
on_error m failed rest w =
    let (r, w') = m w in elim r [ ok a ↦ rest a w' | err _ ↦ (ok failed, w') ]

-- What a round is given: UUIDs and the time for the rows it inserts, the rows that other workers
-- hold, the network, the reply of the broker's BRPop, and the settings of this worker.
pub record Round : Type 0 where
  pub draw : Draw
  pub locked : ℕ → Bool
  pub net : Net
  pub pop : PopReply
  pub publish : Job → W ⊤
  pub queue_key : Text
  pub max_attempts : ℕ
  pub fuel : ℕ

-- case jq.SettlementKey().
settle_job : Env → Round → ℕ → W Log
settle_job env r id = on_error (lift (Payment.settle_mock r.draw.now id)) settle_failed λ _.
    on_error (enqueue_payment_settled env r.draw r.publish id) webhook_enqueue_failed
      λ _. pure payment_settled_queue

-- case queue.DefaultWebhookQueueKey.
delivery_job : Env → Round → ℕ → W Log
delivery_job env r id =
    on_error (process_delivery r.fuel r.net env r.max_attempts r.draw.now id)
      webhook_delivery_failed λ _. pure webhook_delivery_done

-- case queue.DefaultRefundQueueKey.
refund_job_case : Env → Round → ℕ → W Log
refund_job_case env r id =
    on_error (lift (Refund.settle_mock env r.draw.now id)) refund_settle_failed λ _.
      on_error (enqueue_refund_succeeded env r.draw r.publish id) refund_webhook_enqueue_failed
        λ _. pure refund_settled_queue

-- The `switch` on the key.
dispatch : Env → Round → Text → ℕ → W Log
unfolding settle_job delivery_job refund_job_case on_error
dispatch env r key id =
    if text_eq key (settlement_key r.queue_key)
    then settle_job env r id
    else if text_eq key default_webhook_key
    then delivery_job env r id
    else if text_eq key default_refund_key
    then refund_job_case env r id
    else pure unknown_queue_key

pop_job : Env → Round → Result (Text × ℕ) → W Log
unfolding dispatch
pop_job env r (err no_job) = pure idle
pop_job env r (err _) = pure queue_pop_failed
pop_job env r (ok (key, id)) = dispatch env r key id

after_outbox : Env → Round → Option ℕ → Option ℕ → W Log
unfolding pop_job on_error
after_outbox env r (some pid) rid =
    on_error (enqueue_payment_settled env r.draw r.publish pid) webhook_enqueue_failed
      λ _. pure payment_settled
after_outbox env r none (some rid) =
    on_error (enqueue_refund_succeeded env r.draw r.publish rid) refund_webhook_enqueue_failed
      λ _. pure refund_settled
after_outbox env r none none = pop_job env r (brpop_job env r.pop)

-- One round of the worker.
unfoldable pub worker_round : Env → Round → W Log
unfolding after_outbox on_error
worker_round env r =
    on_error (lift (try_process_outbox env r.locked r.draw.now)) outbox_failed
      λ done. after_outbox env r done.payment_id done.refund_id
