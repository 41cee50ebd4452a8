-- ===== src/Http/Access.antt =====
-- Who is admitted: the middleware of payflow-app/internal/httpapi/middleware.go and
-- payflow-app/internal/auth/apikey.go against each other, and what is logged of it.
use payflow_payments_ops_pla.Base.{◌≡◌, false, none, some, arith}
use payflow_payments_ops_pla.Text.{is_empty, trim_space}
use payflow_payments_ops_pla.Queue.{World}
use payflow_payments_ops_pla.Auth.{Context}
use payflow_payments_ops_pla.ApiKeys.{authenticate}
use payflow_payments_ops_pla.Http.{HttpRequest, Server}
use payflow_payments_ops_pla.Http.Middleware.{
  me_auth, middleware_api_key, LogLine, request_logger, request_id_middleware, cors_middleware,
}
use payflow_payments_ops_pla.Http.Router.{logged, serve}

-- Behind a header that is not blank, MeAuth and MiddlewareAPIKey answer alike: the same context for
-- the handler, or the same reply.
pub me_auth-eq-middleware_api_key :
    (s : Server) (r : HttpRequest) (ctx : Context) (w : World)
    → is_empty (trim_space r.api_key_header) ≡ false
    → (me_auth s r ctx w).0 ≡ (middleware_api_key s r ctx w).0
unfolding me_auth middleware_api_key authenticate
me_auth-eq-middleware_api_key s r ctx w given = ground arith

-- RequestLogger never logs a tenant or a principal, whatever the request and whoever is admitted;
-- it logs the request's new id.
pub serve-LogLine :
    (s : Server) (r : HttpRequest) (w : World) (line : LogLine)
    → (serve s r w).0.log ≡ some line
    → (line.tenant_id ≡ none) × (line.principal ≡ none) × (line.request_id ≡ some s.new_request_id)
unfolding serve cors_middleware logged request_id_middleware request_logger
serve-LogLine s r w line e = ground arith
