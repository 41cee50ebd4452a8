-- ===== src/Http/Keeps/Serve.antt =====
-- A whole request, from payflow-app/internal/httpapi/router.go on, from what the calls of the handlers
-- keep.
use payflow_payments_ops_pla.Base.{ℕ, ℤ, ◌≡◌, inl, inr, Bool-cases, Option, none, some}
use payflow_payments_ops_pla.Text.{Text}
use payflow_payments_ops_pla.Queue.{World}
use payflow_payments_ops_pla.Auth.{Context}
use payflow_payments_ops_pla.Http.{HttpRequest, Response, Server, going, Api, ◌>>=◌}
use payflow_payments_ops_pla.Http.Middleware.{
  me_auth, middleware_api_key, request_logger, request_id_middleware, cors_middleware, is_options,
}
use payflow_payments_ops_pla.Http.Router.{
  Route, tenants, login, healthz, me, me_api_keys, me_webhook, deliveries, me_api_key, delivery,
  delivery_retry, dashboard_users, payment, payment_refunds, refund, payments, handle, routed,
  logged, has_origins, serve, route_of,
}
use payflow_payments_ops_pla.Http.Keeps.{KeepsApi, bind-keeps}
use payflow_payments_ops_pla.Http.Keeps.Calls.{Calls}
use payflow_payments_ops_pla.Store.{Db}
use payflow_payments_ops_pla.Http.Keeps.Handlers.{
  post_tenants-Keeps, post_auth_login-Keeps, get_tenants_me-Keeps, post_dashboard_user-Keeps,
  get_tenant_api_keys-Keeps, delete_tenant_api_key-Keeps, post_payment-Keeps, get_payment-Keeps,
  post_refund-Keeps, get_refund_call-Keeps, patch_tenant_webhook-Keeps,
  list_webhook_deliveries-Keeps, get_webhook_delivery-Keeps, retry-Keeps, middleware_api_key-Keeps,
  me_auth-Keeps,
}

module _ (P : Db → Type 0) (s : Server) (mine : ℕ → Type 0) (taken : ℤ → Type 0)
    (calls : Calls P s mine taken)
    (small : (body : Text) (x : ℤ × Text) → s.codec.decode_payment body ≡ some x → taken x.0)
    (r : HttpRequest) (w : World) (before : P w.store.db)
    (by_me : (ctx c : Context) (tid : ℕ)
      → (me_auth s r ctx w).0 ≡ going c
      → c.tenant_id ≡ some tid
      → mine tid)
    (by_key : (ctx c : Context) (tid : ℕ)
      → (middleware_api_key s r ctx w).0 ≡ going c
      → c.tenant_id ≡ some tid
      → mine tid) where
  behind_me :
      (ctx : Context) (f : Context → Api Response)
      → ((c : Context) → ((tid : ℕ) → c.tenant_id ≡ some tid → mine tid) → KeepsApi P (f c))
      → P ((me_auth s r ctx >>= f) w).1.store.db
  behind_me ctx f h =
      bind-keeps P (me_auth s r ctx) f w (me_auth-Keeps P s mine taken calls small r ctx)
        (λ c e. h c (λ tid. by_me ctx c tid e)) before

  behind_key :
      (ctx : Context) (f : Context → Api Response)
      → ((c : Context) → ((tid : ℕ) → c.tenant_id ≡ some tid → mine tid) → KeepsApi P (f c))
      → P ((middleware_api_key s r ctx >>= f) w).1.store.db
  behind_key ctx f h =
      bind-keeps P (middleware_api_key s r ctx) f w
        (middleware_api_key-Keeps P s mine taken calls small r ctx)
        (λ c e. h c (λ tid. by_key ctx c tid e)) before

  handle-Keeps : (route : Route) (ctx : Context) → P (handle s r route ctx w).1.store.db
  unfolding handle
  handle-Keeps tenants ctx = (post_tenants-Keeps P s mine taken calls small r).keeps w before
  handle-Keeps login ctx = (post_auth_login-Keeps P s mine taken calls small r).keeps w before
  handle-Keeps healthz ctx = before
  handle-Keeps me ctx = behind_me ctx _ (get_tenants_me-Keeps P s mine taken calls small)
  handle-Keeps me_api_keys ctx =
      behind_me ctx _ (get_tenant_api_keys-Keeps P s mine taken calls small)
  handle-Keeps (me_api_key id) ctx =
      behind_me ctx _ λ c e. delete_tenant_api_key-Keeps P s mine taken calls small c e id
  handle-Keeps me_webhook ctx =
      behind_me ctx _ λ c e. patch_tenant_webhook-Keeps P s mine taken calls small c e r
  handle-Keeps deliveries ctx =
      behind_me ctx _ λ c e. list_webhook_deliveries-Keeps P s mine taken calls small c e r
  handle-Keeps (delivery id) ctx =
      behind_me ctx _ λ c e. get_webhook_delivery-Keeps P s mine taken calls small c e id
  handle-Keeps (delivery_retry id) ctx =
      behind_me ctx _ λ c e. retry-Keeps P s mine taken calls small c e id
  handle-Keeps (dashboard_users id) ctx =
      behind_key ctx _ λ c e. post_dashboard_user-Keeps P s mine taken calls small c e id r
  handle-Keeps payments ctx =
      behind_key ctx _ λ c e. post_payment-Keeps P s mine taken calls small c e r
  handle-Keeps (payment id) ctx =
      behind_key ctx _ λ c e. get_payment-Keeps P s mine taken calls small c e id
  handle-Keeps (payment_refunds id) ctx =
      behind_key ctx _ λ c e. post_refund-Keeps P s mine taken calls small c e id r
  handle-Keeps (refund id) ctx =
      behind_key ctx _ λ c e. get_refund_call-Keeps P s mine taken calls small c e id

  routed-Keeps : (route : Option Route) (ctx : Context) → P (routed s r route ctx w).1.store.db
  unfolding routed
  routed-Keeps none ctx = before
  routed-Keeps (some route) ctx = handle-Keeps route ctx

  logged-Keeps : (ctx : Context) → P (logged s r ctx w).1.store.db
  unfolding logged request_id_middleware request_logger
  logged-Keeps ctx = routed-Keeps (route_of r.method r.path) _

  cors-Keeps :
      (ctx : Context) → P (cors_middleware s.cors_allowed_origins r (logged s r) ctx w).1.store.db
  unfolding cors_middleware
  cors-Keeps ctx = elim (Bool-cases (is_options r.method)) [
    | inl preflight ↦ rw preflight before
    | inr plain ↦ rw plain (logged-Keeps ctx)
  ]

  pub serve-Keeps : P (serve s r w).1.store.db
  unfolding serve
  serve-Keeps = elim (Bool-cases (has_origins s.cors_allowed_origins)) [
    | inl some_origins ↦ rw some_origins (cors-Keeps _)
    | inr no_origins ↦ rw no_origins (logged-Keeps _)
  ]
