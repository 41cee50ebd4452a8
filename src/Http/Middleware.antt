-- ===== src/Http/Middleware.antt =====
-- payflow-app/internal/httpapi/middleware.go, cors.go and logging.go, and MiddlewareAPIKey of
-- payflow-app/internal/auth/apikey.go in front of a handler.
use payflow_payments_ops_pla.Base.{
  ℕ, Bool, true, false, not, ◌&&◌, Option, none, some, List, [], ◌∷◌, ◌++◌, any, if◌then◌else◌,
}
use payflow_payments_ops_pla.Text.{Text, text_eq, is_empty, codes, trim_space}
use payflow_payments_ops_pla.Store.{dashboard_login_failure, reason, path, str, transact}
use payflow_payments_ops_pla.Queue.{World}
use payflow_payments_ops_pla.Audit
use payflow_payments_ops_pla.Auth.{
  Context, PrincipalKind, api_key, dashboard, with_request_id, with_tenant_principal, bearer,
  parse_dashboard_bearer,
}
use payflow_payments_ops_pla.ApiKeys.{
  Admission, missing_api_key, invalid_api_key, admitted, hash_api_key, lookup, authenticate,
}
use payflow_payments_ops_pla.Http.{
  Method, options, HttpRequest, empty_body, Response, status_of, fail, Server, Api, pure, reply,
  call, drop_error, ◌>>=◌, ◌>>◌, run,
}

-- r.URL.Path.
unfoldable pub path_text : List Text → Text
path_text [] = []
path_text (segment ∷ rest) = codes "/" ++ (segment ++ path_text rest)

-- MiddlewareAPIKey: the context of the next handler, or a reply.
unfoldable pub admission_context : Context → Admission → Api Context
admission_context ctx missing_api_key = reply (fail 401 (codes "missing_api_key"))
admission_context ctx invalid_api_key = reply (fail 401 (codes "invalid_api_key"))
admission_context ctx (admitted tid kid) = pure (with_tenant_principal tid api_key kid ctx)

unfoldable pub middleware_api_key : Server → HttpRequest → Context → Api Context
unfolding admission_context
middleware_api_key s r ctx = do
  admission ← call (λ e. fail 401 (codes "invalid_api_key")) (authenticate s.env r.api_key_header)
  admission_context ctx admission

-- MeAuth, where the API key's header is not blank.
unfoldable pub me_by_key : Server → Text → Context → Api Context
me_by_key s raw ctx = do
  k ← call (λ e. fail 401 (codes "invalid_api_key")) (lookup (hash_api_key s.env raw))
  pure (with_tenant_principal k.tenant_id api_key k.id ctx)

-- MeAuth, where the Authorization header has the prefix `Bearer `.
unfoldable pub me_by_token : HttpRequest → Context → Option (ℕ × ℕ) → Api Context
me_by_token r ctx none = do
  drop_error (
      transact (
        Audit.write none dashboard_login_failure
          ((reason, str (codes "invalid_token")) ∷ (path, str (path_text r.path)) ∷ [])))
  reply (fail 401 (codes "invalid_token"))
me_by_token r ctx (some (tid, uid)) = pure (with_tenant_principal tid dashboard uid ctx)

unfoldable pub is_bearer : Text → Bool
is_bearer header = elim (bearer header) [ none ↦ false | some _ ↦ true ]

-- MeAuth: the context of the next handler, or a reply.
unfoldable pub me_auth : Server → HttpRequest → Context → Api Context
unfolding me_by_key me_by_token is_bearer
me_auth s r ctx =
    let raw = trim_space r.api_key_header in
    if not (is_empty raw)
    then me_by_key s raw ctx
    else if is_bearer r.authorization
    then me_by_token r ctx
        (parse_dashboard_bearer s.env s.jwt s.jwt_secret s.unix_now r.authorization)
    else reply (fail 401 (codes "unauthorized"))

-- MiddlewareBearerJWT, which no route uses.
unfoldable pub middleware_bearer_jwt : Server → HttpRequest → Context → Api Context
middleware_bearer_jwt s r ctx =
    elim (parse_dashboard_bearer s.env s.jwt s.jwt_secret s.unix_now r.authorization) [
      | none ↦ reply (fail 401 (codes "invalid_token"))
      | some (tid, uid) ↦ pure (with_tenant_principal tid dashboard uid ctx)
    ]

-- What RequestLogger logs.
pub record LogLine : Type 0 where
  pub method : Method
  pub path : Text
  pub status : ℕ
  pub request_id : Option Text
  pub tenant_id : Option ℕ
  pub principal : Option PrincipalKind

pub record Served : Type 0 where
  pub response : Response
  pub log : Option LogLine

-- A handler behind the middleware, from the request's context.
abbrev pub Handler : Type 0
Handler = Context → World → Served × World

-- RequestLogger. The deferred function reads the context that the middleware was called with.
unfoldable pub request_logger : HttpRequest → (Context → Api Response) → Handler
request_logger r next ctx w =
    let (response, w') = run (next ctx) w in
    let line : LogLine = record {
      method = r.method;
      path = path_text r.path;
      status = status_of response;
      request_id = ctx.request_id;
      tenant_id = ctx.tenant_id;
      principal = ctx.principal;
    } in
    (record { response = response; log = some line }, w')

abbrev pub with_headers : List (Text × Text) → Response → Response
with_headers headers r = record r { headers = headers ++ r.headers }

-- RequestID.
unfoldable pub request_id_middleware : Server → Handler → Handler
request_id_middleware s next ctx w =
    let (served, w') = next (with_request_id s.new_request_id ctx) w in
    (
      record served {
        response = with_headers ((codes "X-Request-Id", s.new_request_id) ∷ []) served.response;
      },
      w',
    )

-- Whether the set that CORSMiddleware builds holds the origin.
unfoldable pub is_allowed : List Text → Text → Bool
is_allowed origins origin =
    any (λ o. not (is_empty (trim_space o)) && text_eq (trim_space o) origin) origins

abbrev pub cors_headers : Text → List (Text × Text)
cors_headers origin =
    (codes "Access-Control-Allow-Origin", origin)
    ∷ (codes "Access-Control-Allow-Methods", codes "GET, POST, PATCH, DELETE, OPTIONS")
    ∷ (
      codes "Access-Control-Allow-Headers",
      codes "Authorization, Content-Type, X-Api-Key, Idempotency-Key",
    )
    ∷ (codes "Access-Control-Max-Age", codes "86400")
    ∷ []

-- The headers that CORSMiddleware sets for a request.
unfoldable pub cors_reply_headers : List Text → Text → List (Text × Text)
unfolding is_allowed
cors_reply_headers origins raw =
    let origin = trim_space raw in
    if not (is_empty origin) && is_allowed origins origin then cors_headers origin else []

abbrev pub is_options : Method → Bool
is_options options = true
is_options _ = false

-- CORSMiddleware.
unfoldable pub cors_middleware : List Text → HttpRequest → Handler → Handler
cors_middleware origins r next ctx w =
    let headers = cors_reply_headers origins r.origin in
    if is_options r.method
    then (
      record {
        response = record { code = some 204; headers = headers; body = empty_body };
        log = none;
      },
      w,
    )
    else let (served, w') = next ctx w in
      (record served { response = with_headers headers served.response }, w')
