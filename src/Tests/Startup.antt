-- ===== src/Tests/Startup.antt =====
-- Starts of cmd/api.
use payflow_payments_ops_pla.Base.{◌≡◌, refl, true, false, some, none, [], ◌∷◌, count_where, List}
use payflow_payments_ops_pla.Text.{Text, codes, trim_space}
use payflow_payments_ops_pla.Config.{Config, api_backend}
use payflow_payments_ops_pla.Startup.{
  exporter, pool, redis_client, Event, opened, closed, logged, traced, api_listen, migrate_failed,
  Calls, OtelVariables, signalled, init, start_tracing, new_pool, start_pool, start_backend, listen,
  api_main,
}
use payflow_payments_ops_pla.Store.{Delivery, payment_settled, dlq}
use payflow_payments_ops_pla.Startup.Closes.{is_opening, is_closing, api_main-Closes}

abbrev works : Calls
works = record {
  new_exporter = λ t. true;
  new_resource = true;
  shutdown_provider = true;
  parse_config = λ t. true;
  new_pool = true;
  ping = true;
  migrate = true;
  connect_bus = λ t. true;
  parse_redis_url = λ t. true;
  ending = signalled true;
}

abbrev traced_by_default : OtelVariables
traced_by_default = record {
  sdk_disabled = codes "False";
  exporter_endpoint = codes "http://otel:4318";
  service_name = [];
}

abbrev at_redis : Config
at_redis = record {
  database_url = codes "postgres://db";
  jwt_secret = codes "s";
  listen_addr = codes ":8080";
  redis_url = codes "redis://r";
  queue_backend = [];
  azure_service_bus_connection_string = [];
  webhook_max_attempts = 0;
  cors_allowed_origins = [];
}

-- Newest first: the deferred calls run in the reverse of their order.
abbrev whole : List Event
whole =
    closed exporter
    ∷ closed pool
    ∷ closed redis_client
    ∷ logged api_listen
    ∷ opened redis_client
    ∷ opened pool
    ∷ traced (codes "payflow-api")
    ∷ opened exporter
    ∷ []

api_main-whole : api_main works traced_by_default at_redis ≡ (false, whole)
unfolding api_main start_tracing init start_pool new_pool start_backend listen api_backend
    trim_space
api_main-whole = refl

-- A migration that fails leaves by os.Exit, with the pool open.
exits_open : api_main (record works { migrate = false }) traced_by_default at_redis ≡ (
  true,
  logged migrate_failed ∷ opened pool ∷ traced (codes "payflow-api") ∷ opened exporter ∷ [],
)
unfolding api_main start_tracing init start_pool new_pool start_backend listen api_backend
    trim_space
exits_open = refl

api_main-Closes_example : count_where (is_closing pool) whole ≡ count_where (is_opening pool) whole
api_main-Closes_example = api_main-Closes works traced_by_default at_redis whole pool api_main-whole

-- No broker is set.
abbrev alone : Config
alone = record at_redis { redis_url = [] }

abbrev stuck : Delivery
stuck = record {
  id = 9;
  tenant_id = 7;
  payment_id = some 1;
  refund_id = none;
  event_type = payment_settled;
  merchant_idempotency_key = codes "settled:1";
  target_url = codes "https://shop.example/hook";
  payload = [];
  status = dlq;
  attempt_count = 5;
  max_attempts = 5;
  last_error = codes "timeout";
  created_at = 1;
  updated_at = 4;
}
