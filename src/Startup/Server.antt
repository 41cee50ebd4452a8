-- ===== src/Startup/Server.antt =====
-- The server that main of payflow-app/cmd/api/main.go sets up, and what it publishes.
use payflow_payments_ops_pla.Base.{⊤}
use payflow_payments_ops_pla.Text.{Text}
use payflow_payments_ops_pla.Queue.{W, Job, webhook_job, publish, no_op_publish}
use payflow_payments_ops_pla.Config.{
  Config, Backend, missing, no_op, service_bus, redis, api_backend, split_comma,
}
use payflow_payments_ops_pla.Http.{Server}

-- `pub`, where `bus` is the publisher of the Service Bus; for `missing` main has left.
unfoldable pub publisher : (Job → W ⊤) → Backend → Job → W ⊤
publisher bus missing = no_op_publish
publisher bus no_op = no_op_publish
publisher bus (service_bus at_broker) = bus
publisher bus (redis at_url) = publish

-- `srv`; the other fields, which are not settings, are those of `libraries`.
unfoldable pub api_server : Config → (Job → W ⊤) → Server → Server
api_server c bus libraries = record libraries {
  jwt_secret = c.jwt_secret;
  cors_allowed_origins = split_comma c.cors_allowed_origins;
  publish = λ did. publisher bus (api_backend c) (webhook_job did);
}
