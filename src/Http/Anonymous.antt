-- ===== src/Http/Anonymous.antt =====
-- Requests without credentials: the routes of payflow-app/internal/httpapi/router.go that need a
-- principal.
use payflow_payments_ops_pla.Base.{
  ◌≡◌, refl, subst, inl, inr, Bool, true, false, Bool-cases, none, some, List, [], ◌∷◌, arith,
}
use payflow_payments_ops_pla.Text.{Text, is_empty, codes, trim_space}
use payflow_payments_ops_pla.Queue.{World}
use payflow_payments_ops_pla.Auth.{Context, with_request_id, bearer}
use payflow_payments_ops_pla.ApiKeys.{authenticate}
use payflow_payments_ops_pla.Http.{
  options, HttpRequest, Response, fail, Server, Reply, answered, Api, ◌>>=◌,
}
use payflow_payments_ops_pla.Http.Middleware.{
  me_auth, is_bearer, middleware_api_key, admission_context, request_logger, request_id_middleware,
  cors_middleware, is_options, Served,
}
use payflow_payments_ops_pla.Http.Router.{
  Route, tenants, login, healthz, me, me_api_keys, me_webhook, deliveries, me_api_key, delivery,
  delivery_retry, dashboard_users, payment, payment_refunds, refund, payments, route_of, handle,
  routed, logged, has_origins, serve,
}

abbrev pub needs_principal : Route → Bool
needs_principal tenants = false
needs_principal login = false
needs_principal healthz = false
needs_principal _ = true

abbrev Refused : {A : Type 0} → World → Reply A × World → Type 0
Refused w out = (name : Text) × (out ≡ (answered (fail 401 name), w))

abbrev RefusedBy : World → Served × World → Type 0
RefusedBy w out = (out.0.response.code ≡ some 401) × (out.1 ≡ w)

options-route : (path : List Text) → route_of options path ≡ none
unfolding route_of
options-route [] = refl
options-route (a ∷ []) = ground arith
options-route (a ∷ b ∷ []) = ground arith
options-route (a ∷ b ∷ c ∷ []) = ground arith
options-route (a ∷ b ∷ c ∷ d ∷ []) = ground arith
options-route (a ∷ b ∷ c ∷ d ∷ e ∷ []) = ground arith
options-route (a ∷ b ∷ c ∷ d ∷ e ∷ f ∷ path) = ground arith

module _ (s : Server) (r : HttpRequest) (w : World)
    (no_key : is_empty (trim_space r.api_key_header) ≡ true)
    (no_token : bearer r.authorization ≡ none) where
  me_auth-Refused :
      (ctx : Context) → me_auth s r ctx w ≡ (answered (fail 401 (codes "unauthorized")), w)
  unfolding me_auth is_bearer
  me_auth-Refused ctx = ground (arith, no_key, no_token)

  middleware_api_key-Refused :
      (ctx : Context)
      → middleware_api_key s r ctx w ≡ (answered (fail 401 (codes "missing_api_key")), w)
  unfolding middleware_api_key authenticate admission_context
  middleware_api_key-Refused ctx = ground (arith, no_key)

  behind_me : (ctx : Context) (f : Context → Api Response) → Refused w ((me_auth s r ctx >>= f) w)
  behind_me ctx f = (codes "unauthorized", rw (me_auth-Refused ctx) refl)

  behind_key :
      (ctx : Context) (f : Context → Api Response)
      → Refused w ((middleware_api_key s r ctx >>= f) w)
  behind_key ctx f = (codes "missing_api_key", rw (middleware_api_key-Refused ctx) refl)

  handle-Refused :
      (route : Route) (ctx : Context)
      → needs_principal route ≡ true
      → Refused w (handle s r route ctx w)
  unfolding handle
  handle-Refused tenants ctx h = absurd (ground arith)
  handle-Refused login ctx h = absurd (ground arith)
  handle-Refused healthz ctx h = absurd (ground arith)
  handle-Refused me ctx h = behind_me ctx _
  handle-Refused me_api_keys ctx h = behind_me ctx _
  handle-Refused (me_api_key id) ctx h = behind_me ctx _
  handle-Refused me_webhook ctx h = behind_me ctx _
  handle-Refused deliveries ctx h = behind_me ctx _
  handle-Refused (delivery id) ctx h = behind_me ctx _
  handle-Refused (delivery_retry id) ctx h = behind_me ctx _
  handle-Refused (dashboard_users id) ctx h = behind_key ctx _
  handle-Refused payments ctx h = behind_key ctx _
  handle-Refused (payment id) ctx h = behind_key ctx _
  handle-Refused (payment_refunds id) ctx h = behind_key ctx _
  handle-Refused (refund id) ctx h = behind_key ctx _

  logged-RefusedBy :
      (route : Route) (ctx : Context)
      → route_of r.method r.path ≡ some route
      → needs_principal route ≡ true
      → RefusedBy w (logged s r ctx w)
  unfolding logged routed request_id_middleware request_logger
  logged-RefusedBy route ctx at_route needs =
      let (name, e) = handle-Refused route (with_request_id s.new_request_id ctx) needs in
      rw at_route (rw e (refl, refl))

-- A request with a blank API key header and no Bearer token, to a route that needs a principal, is
-- answered 401, and nothing changes: no row is written, nothing is published and nothing is sent.
pub serve-RefusedBy :
    (s : Server) (r : HttpRequest) (w : World) (route : Route)
    → is_empty (trim_space r.api_key_header) ≡ true
    → bearer r.authorization ≡ none
    → route_of r.method r.path ≡ some route
    → needs_principal route ≡ true
    → ((serve s r w).0.response.code ≡ some 401) × ((serve s r w).1 ≡ w)
unfolding serve cors_middleware
serve-RefusedBy s r w route no_key no_token at_route needs =
    elim (Bool-cases (has_origins s.cors_allowed_origins)) [
      | inr no_origins ↦
          rw no_origins (logged-RefusedBy s r w no_key no_token route _ at_route needs)
      | inl origins ↦ elim (Bool-cases (is_options r.method)) [
        | inr plain ↦
            rw (origins, plain) (logged-RefusedBy s r w no_key no_token route _ at_route needs)
        | inl preflight ↦
            let method : options ≡ r.method = ground arith in
            let nowhere = subst (λ m. route_of m r.path ≡ none) method (options-route r.path) in
            absurd (ground (arith, nowhere))
      ]
    ]
