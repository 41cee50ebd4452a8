-- ===== src/Tests/ServiceBus.antt =====
-- The queues on Azure Service Bus, signed tokens, and the brokers of a configuration.
use payflow_payments_ops_pla.Base.{
  ℕ, ◌≡◌, refl, true, none, some, [], ◌∷◌, List, ltb, arith, if◌then◌else◌,
}
use payflow_payments_ops_pla.Text.{Text, codes, trim_space}
use payflow_payments_ops_pla.Store.{Result, ok}
use payflow_payments_ops_pla.Queue.{settlement_job, refund_job, list_of, default_refund_key}
use payflow_payments_ops_pla.ServiceBus.{
  webhook_recv, settlement_sender, connect, Received, settlement, refund, Ack, completed, Feed,
  brpop_job, try_receive, publish,
}
use payflow_payments_ops_pla.ServiceBus.Handles.{Balanced, handle_eq, connect-Balanced}
use payflow_payments_ops_pla.ServiceBus.Pop.{
  Took, holds, brpop_job-ends, brpop_job-Took, brpop_job-publish,
}
use payflow_payments_ops_pla.Config.{Config, worker_backend, redis}
use payflow_payments_ops_pla.Config
use payflow_payments_ops_pla.Tests.Data.{demo_env}

-- The connection fails when the second receiver is opened.
connect-Balanced_example :
    Balanced settlement_sender
      (connect (codes "Endpoint=sb://demo") (λ h. handle_eq webhook_recv h))
connect-Balanced_example =
    connect-Balanced (codes "Endpoint=sb://demo") (λ h. handle_eq webhook_recv h) settlement_sender

-- Nothing for two rounds, then a refund; the deadline passes after round 4.
abbrev feed : Feed
feed = record {
  received = λ n rec. if ltb n 2 then Received.nothing else holds demo_env (refund_job 5) rec;
  in_time = λ n. ltb n 5;
}

brpop_job-ends_example :
    (out : Result (Text × ℕ) × List Ack) × (brpop_job 6 demo_env feed ≡ some out)
brpop_job-ends_example = brpop_job-ends 5 6 demo_env feed (omega arith) refl

brpop_job-Took_example : Took demo_env feed default_refund_key 5 (completed refund ∷ [])
unfolding brpop_job try_receive publish
brpop_job-Took_example =
    brpop_job-Took 6 demo_env feed default_refund_key 5 (completed refund ∷ []) refl

abbrev full : Feed
full = record { received = λ n rec. holds demo_env (settlement_job 5) rec; in_time = λ n. true }

brpop_job-publish_example :
    brpop_job 1 demo_env full
    ≡ some (ok (list_of [] (settlement_job 5), 5), completed settlement ∷ [])
brpop_job-publish_example =
    brpop_job-publish 0 demo_env (settlement_job 5) full refl (λ rec. refl) refl

-- No variable is set.
abbrev defaults : Config
defaults =
    Config.load (λ c. c) (λ t. none)
      (record {
        database_url = [];
        jwt_secret = [];
        listen_addr = [];
        redis_url = [];
        payflow_queue_backend = [];
        azure_servicebus_connection_string = [];
        webhook_max_attempts = [];
        cors_allowed_origins = [];
      })

split_comma_test : Config.split_comma (codes " a, ,b") ≡ codes "a" ∷ codes "b" ∷ []
unfolding Config.split_comma trim_space
split_comma_test = refl
