-- ===== src/Tests/Programs.antt =====
-- A payment through both programs.
use payflow_payments_ops_pla.Base.{
  ◌≡◌, refl, true, false, some, List, [], ◌∷◌, All, arith, map, pos, any, ◌≤◌,
}
use payflow_payments_ops_pla.Text.{codes, trim_space, to_upper, byte_len}
use payflow_payments_ops_pla.Store.{Db, succeeded, is_pending, stmt, transact, transact_if}
use payflow_payments_ops_pla.Queue.{World, Job, timed_out}
use payflow_payments_ops_pla.Queue
use payflow_payments_ops_pla.Queue.Keeps.{publish-db}
use payflow_payments_ops_pla.Webhook.{Net, failed}
use payflow_payments_ops_pla.Webhook.{enqueue_payment_settled, settled_row}
use payflow_payments_ops_pla.Payment
use payflow_payments_ops_pla.Ledger.{append, insert_event}
use payflow_payments_ops_pla.Audit.{write}
use payflow_payments_ops_pla.Outbox.{insert_payment_settlement}
use payflow_payments_ops_pla.ApiKeys.{authenticate, lookup, admit, hash_api_key}
use payflow_payments_ops_pla.Http.Payments.{post_payment}
use payflow_payments_ops_pla.Http.Router.{serve, logged, route_of, routed, handle}
use payflow_payments_ops_pla.Http.Middleware.{
  request_id_middleware, request_logger, middleware_api_key, admission_context,
}
use payflow_payments_ops_pla.Worker.{try_process_outbox, outbox_tx, oldest, parse_id}
use payflow_payments_ops_pla.Worker.Loop.{Round, worker_round}
use payflow_payments_ops_pla.Http.{HttpRequest, post}
use payflow_payments_ops_pla.System.{Reach, here, next, create_payment, empty_db}
use payflow_payments_ops_pla.System.Waiting.Stranded.{is_stranded_payment, is_stranded_refund}
use payflow_payments_ops_pla.System.Waiting.Histories.{pending-asked}
use payflow_payments_ops_pla.System.Drain.{IsAlone, round_act, rounds-settle}
use payflow_payments_ops_pla.Worker.Open.{count_open}
use payflow_payments_ops_pla.System.Programs.{
  Act, request, round, perform_all, IsApart, IsSmall, perform_all-Reach,
}
use payflow_payments_ops_pla.Tests.Data.{demo_env, draw, key, first_db}
use payflow_payments_ops_pla.Tests.Server.{demo_server, shop_db, shop_world}

-- POST /v1/payments with the key of the shop; the codec of the server reads 500 cents.
abbrev pay_request : HttpRequest
pay_request = record {
  method = post;
  path = codes "v1" ∷ codes "payments" ∷ [];
  api_key_header = codes "key";
  authorization = [];
  idempotency_key = key;
  origin = [];
  status_query = [];
  body = some [];
}

abbrev silent : Net
silent = record {
  hmac_hex = λ k message. message;
  url_accepted = λ url. true;
  unix_time = λ n. n;
  reply = λ n. failed [];
  cancelled = λ n. false;
}

abbrev demo_round : Round
demo_round = record {
  draw = draw 80;
  locked = λ id. false;
  net = silent;
  pop = timed_out;
  publish = Queue.publish;
  queue_key = [];
  max_attempts = 5;
  fuel = 9;
}

abbrev acts : List Act
acts = round demo_round shop_world ∷ request demo_server pay_request shop_world ∷ []

acts-IsApart : All IsApart acts
acts-IsApart = (publish-db, (λ did. publish-db _, tt))

acts-IsSmall : All IsSmall acts
acts-IsSmall = (tt, (λ body x e. ground arith, tt))

perform_all-Reach_example : Reach demo_env shop_db (perform_all demo_env acts shop_db)
perform_all-Reach_example = perform_all-Reach demo_env acts shop_db acts-IsApart acts-IsSmall

-- The request creates the payment, and the round settles it.
settles : map (λ p. p.status) (perform_all demo_env acts shop_db).payments ≡ succeeded ∷ []
unfolding perform_all worker_round try_process_outbox transact_if outbox_tx oldest parse_id serve
    logged request_id_middleware request_logger route_of routed handle middleware_api_key
    admission_context authenticate lookup admit trim_space hash_api_key post_payment Payment.create
    Payment.is_valid_create to_upper byte_len Payment.create_tx Payment.insert_payment
    Payment.accept Payment.request_fingerprint transact stmt append insert_event write
    insert_payment_settlement Payment.settle_mock_tx enqueue_payment_settled settled_row
settles = refl

-- The first payment, before any round.
created : Reach demo_env empty_db first_db
created = next here (create_payment (draw 1) 7 key (pos 500) (codes " usd") [] (omega arith) refl)

pending-asked_example :
    (any (is_stranded_payment demo_env first_db.async_outbox) first_db.payments ≡ false)
    × (any (is_stranded_refund demo_env first_db.async_outbox) first_db.refunds ≡ false)
pending-asked_example = pending-asked demo_env first_db (λ id. refl) created

demo-IsAlone : IsAlone (demo_round, shop_world)
demo-IsAlone = record { free = λ id. refl; faultless = refl; apart = publish-db }

one_open : count_open first_db.async_outbox ≤ 1
unfolding Payment.create Payment.is_valid_create trim_space to_upper byte_len Payment.create_tx
    Payment.insert_payment Payment.accept Payment.request_fingerprint transact stmt append
    insert_event write insert_payment_settlement
one_open = omega arith

abbrev drained : Db
drained = perform_all demo_env (map round_act ((demo_round, shop_world) ∷ [])) first_db

rounds-settle_example :
    (any (λ p. is_pending p.status) drained.payments ≡ false)
    × (any (λ r. is_pending r.status) drained.refunds ≡ false)
rounds-settle_example =
    rounds-settle demo_env first_db ((demo_round, shop_world) ∷ []) (λ id. refl) created
      (demo-IsAlone, tt) one_open
