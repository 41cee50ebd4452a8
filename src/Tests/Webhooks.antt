-- ===== src/Tests/Webhooks.antt =====
-- Deliveries of webhooks.
use payflow_payments_ops_pla.Base.{
  ℕ, ◌≡◌, refl, true, false, some, [], ◌∷◌, ⊤, arith, find, length, ltb, if◌then◌else◌,
}
use payflow_payments_ops_pla.Text.{codes}
use payflow_payments_ops_pla.Store.{
  Db, Tenant, Refund, Delivery, succeeded, dlq, ok, err, publish_failed,
}
use payflow_payments_ops_pla.Queue.{World, W, Job, publish}
use payflow_payments_ops_pla.Webhook.{
  Net, HttpReply, failed, status, has_delivery_id, settled_delivery, refunded_delivery, settled_row,
  refunded_row, enqueue_payment_settled, enqueue_refund_succeeded,
}
use payflow_payments_ops_pla.Webhook.Process.{failure_of, process_delivery}
use payflow_payments_ops_pla.Webhook.Process.Rounds.{Ready, world}
use payflow_payments_ops_pla.Webhook.Process.Outcome
use payflow_payments_ops_pla.Webhook.Process.Ends.{Returned, process_delivery-Returned}
use payflow_payments_ops_pla.Webhook.Once.{is_enqueued, after_enqueue, first_enqueue}
use payflow_payments_ops_pla.Webhook.Once
use payflow_payments_ops_pla.Queue.Keeps.{publish-db}
use payflow_payments_ops_pla.Refund
use payflow_payments_ops_pla.Store.Faults.{at}
use payflow_payments_ops_pla.System.{empty_db}
use payflow_payments_ops_pla.Tests.Data.{
  demo_env, draw, first_payment, settled_payment, first_refund,
}

abbrev merchant : Tenant
merchant = record {
  id = 7;
  name = codes "shop";
  webhook_url = some (codes "https://shop.example/hook");
  webhook_signing_secret = some (codes "secret");
}

abbrev notice : Delivery
notice = settled_delivery demo_env (draw 9) first_payment merchant

abbrev notice_db : Db
notice_db = record empty_db { tenants = merchant ∷ []; webhook_deliveries = notice ∷ [] }

-- A receiver that answers with `reply`.
abbrev receiver : (ℕ → HttpReply) → Net
receiver reply = record {
  hmac_hex = λ key message. message;
  url_accepted = λ url. true;
  unix_time = λ n. n;
  reply = reply;
  cancelled = λ n. false;
}

abbrev down : Net
down = receiver λ n. failed (codes "connection refused")

abbrev slow_start : Net
slow_start = receiver λ n. if ltb n 2 then failed (codes "timeout") else status 204

down-Ready : Ready down 9 notice_db notice merchant (codes "secret")
down-Ready = record { found = refl; tenant = refl; has_secret = refl; not_blank = refl; url = refl }

slow_start-Ready : Ready slow_start 9 notice_db notice merchant (codes "secret")
slow_start-Ready = record {
  found = refl;
  tenant = refl;
  has_secret = refl;
  not_blank = refl;
  url = refl;
}

process_delivery-exhausts_example :
    (w' : World) × (d' : Delivery) × (process_delivery 5 down demo_env 5 0 9
        (world notice_db [] [] [])
      ≡ (ok (some tt), w'))
    × (find (has_delivery_id 9) w'.store.db.webhook_deliveries ≡ some d')
    × (d'.status ≡ dlq)
    × (d'.attempt_count ≡ 5)
    × (length w'.sent ≡ 5)
unfolding failure_of
process_delivery-exhausts_example =
    Outcome.process_delivery-exhausts down demo_env 5 0 9 4 5 notice_db [] [] [] notice merchant
      (codes "secret") down-Ready refl refl (omega arith) (λ m. refl) (λ m e. ground arith)

process_delivery-delivers_example :
    (w' : World) × (d' : Delivery) × (process_delivery 5 slow_start demo_env 5 0 9
        (world notice_db [] [] [])
      ≡ (ok (some tt), w'))
    × (find (has_delivery_id 9) w'.store.db.webhook_deliveries ≡ some d')
    × (d'.status ≡ succeeded)
    × (d'.attempt_count ≡ 2)
    × (length w'.sent ≡ 3)
unfolding failure_of
process_delivery-delivers_example =
    Outcome.process_delivery-delivers slow_start demo_env 5 0 9 2 4 5 notice_db [] [] [] notice
      merchant (codes "secret") slow_start-Ready refl refl (omega arith) (λ m. refl) (omega arith)
      (λ i before e. ground arith) refl

-- The database fails while the outcome of the first attempt is written.
abbrev shaky : World
shaky = record (world notice_db [] [] []) { store = at notice_db (false ∷ false ∷ true ∷ []) }

process_delivery-Returned_example : Returned (process_delivery 6 down demo_env 5 0 9 shaky).0
process_delivery-Returned_example =
    process_delivery-Returned down demo_env 5 0 9 5 6 shaky (λ d found. ground arith) (omega arith)

-- The payment of the notice has succeeded, and the broker refuses the job.
abbrev paid_db : Db
paid_db = record empty_db { tenants = merchant ∷ []; payments = settled_payment ∷ [] }

abbrev returned : Refund
returned = Refund.refunded 6 first_refund

abbrev returned_db : Db
returned_db = record paid_db { refunds = returned ∷ [] }

abbrev refuse : Job → W ⊤
refuse job w = (err publish_failed, w)

enqueue_payment_settled-once_example :
    (enqueue_payment_settled demo_env (draw 9) publish 1 (world paid_db [] [] [])
      ≡ first_enqueue publish
          (settled_delivery demo_env (draw 9) settled_payment merchant)
          paid_db
          (world paid_db [] [] []))
    × ((enqueue_payment_settled demo_env (draw 9) publish 1 (world paid_db [] [] [])).1.store.db
        ≡ after_enqueue (settled_delivery demo_env (draw 9) settled_payment merchant) paid_db)
    × (is_enqueued
          (settled_delivery demo_env (draw 9) settled_payment merchant)
          (after_enqueue (settled_delivery demo_env (draw 9) settled_payment merchant) paid_db)
        ≡ true)
    × (enqueue_payment_settled demo_env (draw 10) refuse 1 (
          world
            (after_enqueue (settled_delivery demo_env (draw 9) settled_payment merchant) paid_db)
            []
            []
            [])
        ≡ (
          ok tt,
          world
              (after_enqueue (settled_delivery demo_env (draw 9) settled_payment merchant) paid_db)
              []
              []
              [],
        ))
unfolding settled_row
enqueue_payment_settled-once_example =
    Once.enqueue_payment_settled-once demo_env (draw 9) (draw 10) publish refuse 1 paid_db [] [] []
      [] settled_payment merchant refl refl refl publish-db

enqueue_refund_succeeded-once_example :
    (enqueue_refund_succeeded demo_env (draw 9) publish 2 (world returned_db [] [] [])
      ≡ first_enqueue publish
          (refunded_delivery demo_env (draw 9) returned merchant)
          returned_db
          (world returned_db [] [] []))
    × ((enqueue_refund_succeeded demo_env
          (draw 9)
          publish
          2
          (world returned_db [] [] [])).1.store.db
        ≡ after_enqueue (refunded_delivery demo_env (draw 9) returned merchant) returned_db)
    × (is_enqueued
          (refunded_delivery demo_env (draw 9) returned merchant)
          (after_enqueue (refunded_delivery demo_env (draw 9) returned merchant) returned_db)
        ≡ true)
    × (enqueue_refund_succeeded demo_env (draw 10) refuse 2 (
          world
            (after_enqueue (refunded_delivery demo_env (draw 9) returned merchant) returned_db)
            []
            []
            [])
        ≡ (
          ok tt,
          world
              (after_enqueue (refunded_delivery demo_env (draw 9) returned merchant) returned_db)
              []
              []
              [],
        ))
unfolding refunded_row
enqueue_refund_succeeded-once_example =
    Once.enqueue_refund_succeeded-once demo_env (draw 9) (draw 10) publish refuse 2 returned_db []
      [] [] [] returned merchant refl refl refl publish-db
