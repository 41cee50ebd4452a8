-- ===== src/Http/Retry.antt =====
-- postWebhookDeliveryRetry of payflow-app/internal/httpapi/refunds_webhooks.go.
use payflow_payments_ops_pla.Base.{
  ℕ, ◌≡◌, refl, ◌∙◌, true, false, ◌&&◌, some, List, [], ◌∷◌, find, find-update, find_sound, arith,
}
use payflow_payments_ops_pla.Text.{Text, codes}
use payflow_payments_ops_pla.Store.{Db, Delivery, pending, is_dlq, Error, ok, err, stmt, transact}
use payflow_payments_ops_pla.Queue.{Job, webhook_job, Request}
use payflow_payments_ops_pla.Webhook.Process.Rounds.{world}
use payflow_payments_ops_pla.Auth.{Context}
use payflow_payments_ops_pla.Http.{Server, fail, json, string, boolean, run}
use payflow_payments_ops_pla.Http.Deliveries.{
  is_delivery_of, delivery_status, reopened, reopen, post_webhook_delivery_retry,
}

module _ (s : Server) (ctx : Context) (path : Text) (tid did : ℕ) (db : Db) (published : List Job)
    (sent : List Request) (waits : List ℕ) (tenant : ctx.tenant_id ≡ some tid)
    (parsed : s.env.uuid_parse path ≡ some did) where
  pub retry-dlq :
      (d : Delivery)
      → find (is_delivery_of tid did) db.webhook_deliveries ≡ some d
      → is_dlq d.status ≡ true
      → run (post_webhook_delivery_retry s ctx path) (world db published sent waits) ≡ (
          let (out, w) =
            s.publish did (world (reopen s.draw.now tid did db) published sent waits) in
          elim out [
            | ok u ↦ (
              json (
                  (codes "ok", boolean true)
                  ∷ (codes "delivery_id", string (s.env.uuid_string did))
                  ∷ []),
              w,
            )
            | err e ↦ (fail 503 (codes "enqueue_failed"), w)
          ])
  unfolding post_webhook_delivery_retry delivery_status stmt transact
  retry-dlq d found parked = ground (arith, tenant, parsed, found)

  retry-other :
      (d : Delivery)
      → find (is_delivery_of tid did) db.webhook_deliveries ≡ some d
      → is_dlq d.status ≡ false
      → run (post_webhook_delivery_retry s ctx path) (world db published sent waits)
        ≡ (fail 400 (codes "not_dlq"), world db published sent waits)
  unfolding post_webhook_delivery_retry delivery_status stmt transact
  retry-other d found other = ground (arith, tenant, parsed, found)

  pub reopen-find :
      (now : ℕ) (d : Delivery)
      → find (is_delivery_of tid did) db.webhook_deliveries ≡ some d
      → is_dlq d.status ≡ true
      → find (is_delivery_of tid did) (reopen now tid did db).webhook_deliveries
        ≡ some (reopened now d)
  reopen-find now d found parked = ground (
    arith,
    found,
    find_sound (is_delivery_of tid did) db.webhook_deliveries d,
    find-update (is_delivery_of tid did) (λ x. is_delivery_of tid did x && is_dlq x.status)
        (reopened now) db.webhook_deliveries (λ x. refl),
  )

-- A retry of a delivery of the caller's tenant that is in the DLQ, while the database works and the
-- publisher takes the job: the reply is ok, the row is pending with no attempts counted and no error,
-- and the one new job is that of the delivery.
pub post_webhook_delivery_retry-published :
    (s : Server) (ctx : Context) (path : Text) (tid did : ℕ) (db : Db) (published : List Job)
    (sent : List Request) (waits : List ℕ) (d : Delivery)
    → ctx.tenant_id ≡ some tid
    → s.env.uuid_parse path ≡ some did
    → find (is_delivery_of tid did) db.webhook_deliveries ≡ some d
    → is_dlq d.status ≡ true
    → ((after : Db)
        → s.publish did (world after published sent waits)
          ≡ (ok tt, world after (webhook_job did ∷ published) sent waits))
    → (db' : Db) × (run (post_webhook_delivery_retry s ctx path) (world db published sent waits) ≡ (
      json
          ((codes "ok", boolean true) ∷ (codes "delivery_id", string (s.env.uuid_string did)) ∷ []),
      world db' (webhook_job did ∷ published) sent waits,
    ))
      × (find (is_delivery_of tid did) db'.webhook_deliveries
          ≡ some (record d {
            status = pending;
            attempt_count = 0;
            last_error = [];
            updated_at = s.draw.now;
          }))
post_webhook_delivery_retry-published s ctx path tid did db published sent waits d tenant parsed
      found parked takes =
    let db' = reopen s.draw.now tid did db in
    (
      db',
      retry-dlq s ctx path tid did db published sent waits tenant parsed d found parked
          ∙ ground (arith, takes db'),
      reopen-find s ctx path tid did db published sent waits tenant parsed s.draw.now d found
          parked,
    )

-- A retry of a delivery of the caller's tenant that is in the DLQ, while the database works and the
-- publisher fails and leaves the world alone, replies 503 and publishes nothing, but the row is
-- pending; and the next retry of it, in the state right after, by any server, is refused as
-- `not_dlq` and publishes nothing.
pub post_webhook_delivery_retry-lost :
    (s later : Server) (ctx : Context) (path : Text) (tid did : ℕ) (db : Db) (published : List Job)
    (sent : List Request) (waits : List ℕ) (d : Delivery) (e : Error)
    → ctx.tenant_id ≡ some tid
    → s.env.uuid_parse path ≡ some did
    → later.env.uuid_parse path ≡ some did
    → find (is_delivery_of tid did) db.webhook_deliveries ≡ some d
    → is_dlq d.status ≡ true
    → ((after : Db)
        → s.publish did (world after published sent waits)
          ≡ (err e, world after published sent waits))
    → (db' : Db) × (run (post_webhook_delivery_retry s ctx path) (world db published sent waits)
        ≡ (fail 503 (codes "enqueue_failed"), world db' published sent waits))
      × (find (is_delivery_of tid did) db'.webhook_deliveries
          ≡ some (record d {
            status = pending;
            attempt_count = 0;
            last_error = [];
            updated_at = s.draw.now;
          }))
      × (run (post_webhook_delivery_retry later ctx path) (world db' published sent waits)
          ≡ (fail 400 (codes "not_dlq"), world db' published sent waits))
post_webhook_delivery_retry-lost s later ctx path tid did db published sent waits d e tenant parsed
      parsed2 found parked fails =
    let db' = reopen s.draw.now tid did db in
    let row =
      reopen-find s ctx path tid did db published sent waits tenant parsed s.draw.now d found
        parked in
    (
      db',
      retry-dlq s ctx path tid did db published sent waits tenant parsed d found parked
          ∙ ground (arith, fails db'),
      row,
      retry-other later ctx path tid did db' published sent waits tenant parsed2
          (reopened s.draw.now d) row refl,
    )
