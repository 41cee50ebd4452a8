-- ===== src/Http/Router.antt =====
-- payflow-app/internal/httpapi/router.go: the routes, and the middleware in front of all of them.
use payflow_payments_ops_pla.Base.{
  Bool, true, false, Option, none, some, List, [], ◌∷◌, if◌then◌else◌, ◌&&◌,
}
use payflow_payments_ops_pla.Text.{Text, text_eq, codes}
use payflow_payments_ops_pla.Queue.{World}
use payflow_payments_ops_pla.Auth.{Context, background}
use payflow_payments_ops_pla.Http.{
  Method, get, post, patch, delete, HttpRequest, plain, Response, Server, Api, pure, ◌>>=◌,
}
use payflow_payments_ops_pla.Http.Accounts.{
  post_tenants, get_tenants_me, post_dashboard_user, post_auth_login, get_tenant_api_keys,
  delete_tenant_api_key,
}
use payflow_payments_ops_pla.Http.Payments.{post_payment, get_payment, post_refund, get_refund}
use payflow_payments_ops_pla.Http.Deliveries.{
  patch_tenant_webhook, list_webhook_deliveries, get_webhook_delivery, post_webhook_delivery_retry,
}
use payflow_payments_ops_pla.Http.Middleware.{
  me_auth, middleware_api_key, Served, Handler, request_logger, request_id_middleware,
  cors_middleware,
}

-- The routes that need no principal; those behind MeAuth; and those behind MiddlewareAPIKey.
pub data Route : Type 0 where
  tenants login healthz : Route
  me me_api_keys me_webhook deliveries : Route
  me_api_key delivery delivery_retry : Text → Route
  dashboard_users payment payment_refunds refund : Text → Route
  payments : Route

abbrev segment : Text → Text → Bool
segment a b = text_eq a b

-- The last two or three segments after /v1, by method.
route_one : Method → Text → Option Route
route_one post a =
    if segment a (codes "tenants")
    then some tenants
    else if segment a (codes "payments")
    then some payments
    else none
route_one get a = if segment a (codes "webhook-deliveries") then some deliveries else none
route_one _ a = none

route_two : Method → Text → Text → Option Route
route_two post a b =
    if segment a (codes "auth") && segment b (codes "login") then some login else none
route_two get a b =
    if segment a (codes "tenants") && segment b (codes "me")
    then some me
    else if segment a (codes "webhook-deliveries")
    then some (delivery b)
    else if segment a (codes "payments")
    then some (payment b)
    else if segment a (codes "refunds")
    then some (refund b)
    else none
route_two _ a b = none

route_three : Method → Text → Text → Text → Option Route
route_three get a b c =
    if segment a (codes "tenants") && segment b (codes "me") && segment c (codes "api-keys")
    then some me_api_keys
    else none
route_three patch a b c =
    if segment a (codes "tenants") && segment b (codes "me") && segment c (codes "webhook")
    then some me_webhook
    else none
route_three post a b c =
    if segment a (codes "webhook-deliveries") && segment c (codes "retry")
    then some (delivery_retry b)
    else if segment a (codes "tenants") && segment c (codes "dashboard-users")
    then some (dashboard_users b)
    else if segment a (codes "payments") && segment c (codes "refunds")
    then some (payment_refunds b)
    else none
route_three _ a b c = none

route_four : Method → Text → Text → Text → Text → Option Route
route_four delete a b c d =
    if segment a (codes "tenants") && segment b (codes "me") && segment c (codes "api-keys")
    then some (me_api_key d)
    else none
route_four _ a b c d = none

under_v1 : Method → List Text → Option Route
under_v1 m [] = none
under_v1 m (a ∷ []) = route_one m a
under_v1 m (a ∷ b ∷ []) = route_two m a b
under_v1 m (a ∷ b ∷ c ∷ []) = route_three m a b c
under_v1 m (a ∷ b ∷ c ∷ d ∷ []) = route_four m a b c d
under_v1 m (_ ∷ _ ∷ _ ∷ _ ∷ _ ∷ _) = none

is_get : Method → Bool
is_get get = true
is_get _ = false

-- The route of a request, as NewRouter registers them.
unfoldable pub route_of : Method → List Text → Option Route
unfolding under_v1 route_one route_two route_three route_four is_get
route_of m [] = none
route_of m (a ∷ rest) = if segment a (codes "v1") then under_v1 m rest else elim rest [
  | [] ↦ if is_get m && segment a (codes "healthz") then some healthz else none
  | _ ∷ _ ↦ none
]

abbrev ok_response : Response
ok_response = record { code = some 200; headers = []; body = plain (codes "ok") }

-- The handler of each route, after its own middleware.
unfoldable pub handle : Server → HttpRequest → Route → Context → Api Response
handle s r tenants ctx = post_tenants s r
handle s r login ctx = post_auth_login s r
handle s r healthz ctx = pure ok_response
handle s r me ctx = do c ← me_auth s r ctx; get_tenants_me s c
handle s r me_api_keys ctx = do c ← me_auth s r ctx; get_tenant_api_keys s c
handle s r (me_api_key id) ctx = do c ← me_auth s r ctx; delete_tenant_api_key s c id
handle s r me_webhook ctx = do c ← me_auth s r ctx; patch_tenant_webhook s c r
handle s r deliveries ctx = do c ← me_auth s r ctx; list_webhook_deliveries s c r
handle s r (delivery id) ctx = do c ← me_auth s r ctx; get_webhook_delivery s c id
handle s r (delivery_retry id) ctx = do c ← me_auth s r ctx; post_webhook_delivery_retry s c id
handle s r (dashboard_users id) ctx = do
  c ← middleware_api_key s r ctx
  post_dashboard_user s c id r
handle s r payments ctx = do c ← middleware_api_key s r ctx; post_payment s c r
handle s r (payment id) ctx = do c ← middleware_api_key s r ctx; get_payment s c id
handle s r (payment_refunds id) ctx = do c ← middleware_api_key s r ctx; post_refund s c id r
handle s r (refund id) ctx = do c ← middleware_api_key s r ctx; get_refund s c id

unfoldable pub routed : Server → HttpRequest → Option Route → Context → Api Response
routed s r none ctx = pure (s.unrouted r)
routed s r (some route) ctx = handle s r route ctx

-- RequestID and RequestLogger around the routes.
unfoldable pub logged : Server → HttpRequest → Handler
unfolding routed
logged s r = request_id_middleware s (request_logger r (routed s r (route_of r.method r.path)))

abbrev pub has_origins : List Text → Bool
has_origins [] = false
has_origins (_ ∷ _) = true

-- A request, from NewRouter's handler on.
unfoldable pub serve : Server → HttpRequest → World → Served × World
serve s r w =
    if has_origins s.cors_allowed_origins
    then cors_middleware s.cors_allowed_origins r (logged s r) background w
    else logged s r background w
