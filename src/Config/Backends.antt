-- ===== src/Config/Backends.antt =====
-- The brokers that payflow-app/cmd/api/main.go and payflow-app/cmd/worker/main.go connect to, under
-- one configuration.
use payflow_payments_ops_pla.Base.{◌≡◌, refl, [], ◌∷◌, true, arith}
use payflow_payments_ops_pla.Text.{Text, codes, is_empty, trim_space}
use payflow_payments_ops_pla.Config.{
  Config, Backend, or_default, missing, no_op, service_bus, redis, api_backend, worker_backend,
}

is_empty-trim_space : (t : Text) → is_empty t ≡ true → is_empty (trim_space t) ≡ true
unfolding trim_space
is_empty-trim_space [] h = refl
is_empty-trim_space (c ∷ t) h = absurd (ground arith)

-- What the worker must connect to, by what the API connects to: the same broker; and any Redis server
-- where the API has none. An API that exits asks for nothing.
abbrev pub Reads : Backend → Backend → Type 0
Reads missing worker = Unit
Reads no_op worker = (at_redis : Text) × (worker ≡ redis at_redis)
Reads (service_bus at_broker) worker = worker ≡ service_bus at_broker
Reads (redis at_broker) worker = worker ≡ redis at_broker

api_backend-Reads : (c : Config) (b : Backend) → api_backend c ≡ b → Reads b (worker_backend c)
unfolding api_backend worker_backend
api_backend-Reads c missing h = tt
api_backend-Reads c no_op h =
    let blank_url = is_empty-trim_space c.redis_url in
    (or_default c.redis_url (codes "redis://127.0.0.1:6379/0"), ground (arith, blank_url))
api_backend-Reads c (service_bus at_broker) h =
    let blank_bus = is_empty-trim_space c.azure_service_bus_connection_string in
    ground (arith, blank_bus)
api_backend-Reads c (redis at_broker) h =
    let blank_url = is_empty-trim_space c.redis_url in ground (arith, blank_url)

-- Under one configuration the worker reads from the broker that the API publishes to, where the API
-- has one; where the API publishes nothing, the worker still connects to a Redis server.
pub api_backend-worker_backend : (c : Config) → Reads (api_backend c) (worker_backend c)
api_backend-worker_backend c = api_backend-Reads c (api_backend c) refl
