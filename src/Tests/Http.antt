-- ===== src/Tests/Http.antt =====
-- Requests to the server.
use payflow_payments_ops_pla.Base.{ℕ, ◌≡◌, ◌≢◌, refl, true, none, some, [], ◌∷◌, find, arith}
use payflow_payments_ops_pla.Text.{codes, trim_space}
use payflow_payments_ops_pla.Store.{
  Db, Delivery, payment_settled, pending, dlq, err, publish_failed, stmt,
}
use payflow_payments_ops_pla.Queue.{World, Job, webhook_job}
use payflow_payments_ops_pla.Queue
use payflow_payments_ops_pla.Auth.{bearer, Context, api_key, background, with_tenant_principal}
use payflow_payments_ops_pla.ApiKeys.{authenticate, lookup, hash_api_key}
use payflow_payments_ops_pla.Webhook.Process.Rounds.{world}
use payflow_payments_ops_pla.Http.{
  HttpRequest, Response, get, Server, fail, json, string, boolean, going, run,
}
use payflow_payments_ops_pla.Http.Deliveries.{is_delivery_of, post_webhook_delivery_retry}
use payflow_payments_ops_pla.Http.Middleware.{
  me_auth, middleware_api_key, LogLine, path_text, request_logger, request_id_middleware,
}
use payflow_payments_ops_pla.Http.Router.{me_webhook, handle, route_of, routed, logged, serve}
use payflow_payments_ops_pla.Http.Access.{me_auth-eq-middleware_api_key, serve-LogLine}
use payflow_payments_ops_pla.Http.Retry.{
  post_webhook_delivery_retry-published, post_webhook_delivery_retry-lost,
}
use payflow_payments_ops_pla.Http.Isolation.{rows_of}
use payflow_payments_ops_pla.Http.Isolation.Serve.{serve-rows_of}
use payflow_payments_ops_pla.Http.Anonymous.{serve-RefusedBy}
use payflow_payments_ops_pla.Http.Reads.Handlers.{read, deliveries, read-rows_of}
use payflow_payments_ops_pla.Tests.Server.{demo_server, shop_db, shop_world, patch_request}

publish-db : (did : ℕ) (x : World) → (demo_server.publish did x).1.store.db ≡ x.store.db
unfolding Queue.publish
publish-db did x = ground arith

by_me :
    (ctx c : Context)
    → (me_auth demo_server patch_request ctx shop_world).0 ≡ going c
    → c.tenant_id ≢ some 9
unfolding me_auth lookup trim_space hash_api_key stmt
by_me ctx c h e = absurd (ground arith)

by_key :
    (ctx c : Context)
    → (middleware_api_key demo_server patch_request ctx shop_world).0 ≡ going c
    → c.tenant_id ≢ some 9
unfolding middleware_api_key authenticate lookup trim_space hash_api_key stmt
by_key ctx c h e = absurd (ground arith)

serve-rows_of_example :
    rows_of 9 (serve demo_server patch_request shop_world).1.store.db ≡ rows_of 9 shop_db
serve-rows_of_example =
    serve-rows_of 9 demo_server patch_request shop_world (λ e. absurd (omega arith)) publish-db
      by_me by_key

me_auth-eq-middleware_api_key_example :
    (me_auth demo_server patch_request background shop_world).0
    ≡ (middleware_api_key demo_server patch_request background shop_world).0
unfolding trim_space
me_auth-eq-middleware_api_key_example =
    me_auth-eq-middleware_api_key demo_server patch_request background shop_world refl

-- The probe that needs no principal, and its line in the log.
abbrev healthz_request : HttpRequest
healthz_request = record patch_request { method = get; path = codes "healthz" ∷ [] }

abbrev healthz_line : LogLine
healthz_line = record {
  method = get;
  path = codes "/healthz";
  status = 200;
  request_id = some (codes "req-1");
  tenant_id = none;
  principal = none;
}

serve-LogLine_example :
    (healthz_line.tenant_id ≡ none)
    × (healthz_line.principal ≡ none)
    × (healthz_line.request_id ≡ some demo_server.new_request_id)
unfolding serve logged request_id_middleware request_logger routed route_of handle path_text
serve-LogLine_example = serve-LogLine demo_server healthz_request shop_world healthz_line refl

abbrev parked : Delivery
parked = record {
  id = 9;
  tenant_id = 7;
  payment_id = some 1;
  refund_id = none;
  event_type = payment_settled;
  merchant_idempotency_key = codes "settled:1";
  target_url = codes "https://shop.example/hook";
  payload = [];
  status = dlq;
  attempt_count = 5;
  max_attempts = 5;
  last_error = codes "timeout";
  created_at = 1;
  updated_at = 4;
}

abbrev parked_db : Db
parked_db = record shop_db { webhook_deliveries = parked ∷ [] }

-- The path's id is the text of the UUID 9.
post_webhook_delivery_retry-published_example :
    (db' : Db) × (run
        (post_webhook_delivery_retry demo_server
          (with_tenant_principal 7 api_key 3 background)
          (9 ∷ []))
        (world parked_db [] [] [])
      ≡ (
        json ((codes "ok", boolean true) ∷ (codes "delivery_id", string (9 ∷ [])) ∷ []),
        world db' (webhook_job 9 ∷ []) [] [],
      ))
    × (find (is_delivery_of 7 9) db'.webhook_deliveries
        ≡ some (record parked {
          status = pending;
          attempt_count = 0;
          last_error = [];
          updated_at = 70;
        }))
unfolding Queue.publish
post_webhook_delivery_retry-published_example =
    post_webhook_delivery_retry-published demo_server (with_tenant_principal 7 api_key 3 background)
      (9 ∷ []) 7 9 parked_db [] [] [] parked refl refl refl refl (λ after. refl)

-- A server whose broker is down.
abbrev unlucky : Server
unlucky = record demo_server { publish = λ did w. (err publish_failed, w) }

post_webhook_delivery_retry-lost_example :
    (db' : Db) × (run
        (post_webhook_delivery_retry unlucky
          (with_tenant_principal 7 api_key 3 background)
          (9 ∷ []))
        (world parked_db [] [] [])
      ≡ (fail 503 (codes "enqueue_failed"), world db' [] [] []))
    × (find (is_delivery_of 7 9) db'.webhook_deliveries
        ≡ some (record parked {
          status = pending;
          attempt_count = 0;
          last_error = [];
          updated_at = 70;
        }))
    × (run
          (post_webhook_delivery_retry demo_server
            (with_tenant_principal 7 api_key 3 background)
            (9 ∷ []))
          (world db' [] [] [])
        ≡ (fail 400 (codes "not_dlq"), world db' [] [] []))
post_webhook_delivery_retry-lost_example =
    post_webhook_delivery_retry-lost unlucky demo_server
      (with_tenant_principal 7 api_key 3 background) (9 ∷ []) 7 9 parked_db [] [] [] parked
      publish_failed refl refl refl refl refl (λ after. refl)

abbrev anonymous_request : HttpRequest
anonymous_request = record patch_request { api_key_header = codes " " }

serve-RefusedBy_example :
    ((serve demo_server anonymous_request shop_world).0.response.code ≡ some 401)
    × ((serve demo_server anonymous_request shop_world).1 ≡ shop_world)
unfolding trim_space bearer route_of
serve-RefusedBy_example =
    serve-RefusedBy demo_server anonymous_request shop_world me_webhook refl refl refl refl

-- The rival gets a delivery; the shop's list of its own does not change.
abbrev rival_db : Db
rival_db = record parked_db {
  webhook_deliveries = record parked { id = 8; tenant_id = 9 } ∷ parked ∷ [];
}

abbrev shop_reads : World → Response
shop_reads w =
    (run
      (read demo_server (with_tenant_principal 7 api_key 3 background) (deliveries patch_request))
      w).0

read-rows_of_example : shop_reads (world parked_db [] [] []) ≡ shop_reads (world rival_db [] [] [])
read-rows_of_example =
    read-rows_of 7 demo_server (with_tenant_principal 7 api_key 3 background)
      (deliveries patch_request) (world parked_db [] [] []) (world rival_db [] [] []) refl refl refl
