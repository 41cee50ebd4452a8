-- ===== src/Webhook/Keeps.antt =====
-- What the two Enqueue… functions of payflow-app/internal/webhook/webhook.go keep, from what the insert
-- and the publisher keep.
use payflow_payments_ops_pla.Base.{ℕ, Option, none, some, ⊤}
use payflow_payments_ops_pla.Store.{
  Db, Env, Draw, Payment, Refund, Tenant, Delivery, stmt, transact,
}
use payflow_payments_ops_pla.Queue.{W, Job}
use payflow_payments_ops_pla.Queue.Keeps.{KeepsW, worker_rules}
use payflow_payments_ops_pla.Http.Keeps.{KeepsTx}
use payflow_payments_ops_pla.Webhook.{
  insert_delivery, publish_inserted, enqueue, enqueue_settled_row, enqueue_payment_settled,
  enqueue_refunded_row, enqueue_refund_succeeded,
}

module _ (P : Db → Type 0)
    (inserts : (d : Delivery) → KeepsTx P (transact (stmt (insert_delivery d))))
    (publish : Job → W ⊤) (publishes : (job : Job) → KeepsW P (publish job)) where
  publish_inserted-Keeps : (inserted : Option ℕ) → KeepsW P (publish_inserted publish inserted)
  unfolding publish_inserted
  publish_inserted-Keeps none = search worker_rules
  publish_inserted-Keeps (some id) = publishes _

  enqueue-Keeps : (d : Delivery) → KeepsW P (enqueue publish d)
  unfolding enqueue
  enqueue-Keeps d = search (worker_rules, inserts, publish_inserted-Keeps) depth 8

  enqueue_settled_row-Keeps :
      (env : Env) (draw : Draw) (row : Option (Payment × Tenant))
      → KeepsW P (enqueue_settled_row env draw publish row)
  unfolding enqueue_settled_row
  enqueue_settled_row-Keeps env draw none = search worker_rules
  enqueue_settled_row-Keeps env draw (some (p, t)) = search (worker_rules, enqueue-Keeps) depth 8

  pub enqueue_payment_settled-Keeps :
      (env : Env) (draw : Draw) (pid : ℕ) → KeepsW P (enqueue_payment_settled env draw publish pid)
  unfolding enqueue_payment_settled
  enqueue_payment_settled-Keeps env draw pid =
      search (worker_rules, enqueue_settled_row-Keeps) depth 8

  enqueue_refunded_row-Keeps :
      (env : Env) (draw : Draw) (row : Option (Refund × Tenant))
      → KeepsW P (enqueue_refunded_row env draw publish row)
  unfolding enqueue_refunded_row
  enqueue_refunded_row-Keeps env draw none = search worker_rules
  enqueue_refunded_row-Keeps env draw (some (r, t)) = search (worker_rules, enqueue-Keeps) depth 8

  pub enqueue_refund_succeeded-Keeps :
      (env : Env) (draw : Draw) (rid : ℕ) → KeepsW P (enqueue_refund_succeeded env draw publish rid)
  unfolding enqueue_refund_succeeded
  enqueue_refund_succeeded-Keeps env draw rid =
      search (worker_rules, enqueue_refunded_row-Keeps) depth 8
