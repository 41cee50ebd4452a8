-- ===== src/Http/Keeps/Handlers.antt =====
-- The handlers and the middleware of payflow-app/internal/httpapi, from what their calls keep.
use payflow_payments_ops_pla.Base.{
  ℕ, ℤ, ◌≡◌, inl, inr, Bool, true, false, Bool-cases, Option, none, some, if◌then◌else◌,
}
use payflow_payments_ops_pla.Text.{Text, codes}
use payflow_payments_ops_pla.Store.{Db, DashboardUser, Result, ok, err}
use payflow_payments_ops_pla.Auth.{Context}
use payflow_payments_ops_pla.ApiKeys.{Admission, missing_api_key, invalid_api_key, admitted}
use payflow_payments_ops_pla.Http.{fail, HttpRequest, Server, Api}
use payflow_payments_ops_pla.Http.Accounts.{
  post_tenants, get_tenants_me, post_dashboard_user, login_failure, login_as, post_auth_login,
  get_tenant_api_keys, delete_tenant_api_key,
}
use payflow_payments_ops_pla.Http.Payments.{post_payment, get_payment, post_refund, get_refund}
use payflow_payments_ops_pla.Http.Deliveries.{
  patch_tenant_webhook, list_webhook_deliveries, get_webhook_delivery, post_webhook_delivery_retry,
}
use payflow_payments_ops_pla.Http.Middleware.{
  me_auth, me_by_key, me_by_token, admission_context, middleware_api_key,
}
use payflow_payments_ops_pla.Http.Keeps.{
  KeepsApi, keeps_rules, some-KeepsApi, bind-KeepsApi, reply_if-KeepsApi, call_publisher-KeepsApi,
}
use payflow_payments_ops_pla.Http.Keeps.Calls.{
  Calls, find_user-Keeps, outcome_of-Keeps, lookup-Keeps, get-Keeps, get_refund-Keeps,
  get_name-Keeps, get_delivery-Keeps, list_by_payment-Keeps, list_api_keys-Keeps,
  list_deliveries-Keeps, delivery_status-Keeps, authenticate-Keeps,
}

module _ (P : Db → Type 0) (s : Server) (mine : ℕ → Type 0) (taken : ℤ → Type 0)
    (calls : Calls P s mine taken)
    (small : (body : Text) (x : ℤ × Text) → s.codec.decode_payment body ≡ some x → taken x.0) where
  pub post_tenants-Keeps : (r : HttpRequest) → KeepsApi P (post_tenants s r)
  unfolding post_tenants
  post_tenants-Keeps r = search (keeps_rules, calls.creates_tenant) depth 12

  pub login_failure-Keeps :
      (tid : ℕ) (address why : Text) → KeepsApi P (login_failure tid address why)
  login_failure-Keeps tid address why = search (keeps_rules, calls.audits) depth 8

  pub login_as-Keeps :
      (tid : ℕ) (address password : Text) (out : Result DashboardUser)
      → KeepsApi P (login_as s tid address password out)
  unfolding login_as
  login_as-Keeps tid address password (err e) = login_failure-Keeps tid address _
  login_as-Keeps tid address password (ok u) =
      elim (Bool-cases (s.bcrypt.matches u.password_hash password)) [
        | inl good ↦ rw good (search (keeps_rules, calls.audits) depth 10)
        | inr bad ↦ rw bad (login_failure-Keeps tid address _)
      ]

  pub post_auth_login-Keeps : (r : HttpRequest) → KeepsApi P (post_auth_login s r)
  unfolding post_auth_login
  post_auth_login-Keeps r =
      search (keeps_rules, outcome_of-Keeps, find_user-Keeps, login_as-Keeps) depth 12

  module _ (ctx : Context) (mine_ctx : (tid : ℕ) → ctx.tenant_id ≡ some tid → mine tid) where
    pub get_tenants_me-Keeps : KeepsApi P (get_tenants_me s ctx)
    unfolding get_tenants_me
    get_tenants_me-Keeps = search (keeps_rules, get_name-Keeps) depth 14

    pub post_dashboard_user-Keeps :
        (path : Text) (r : HttpRequest) → KeepsApi P (post_dashboard_user s ctx path r)
    unfolding post_dashboard_user
    post_dashboard_user-Keeps path r = some-KeepsApi P _ ctx.tenant_id _ λ tid at_tid.
        let admitted_for = mine_ctx tid at_tid in
        search (keeps_rules, calls.inserts_user, calls.audits) depth 24

    pub get_tenant_api_keys-Keeps : KeepsApi P (get_tenant_api_keys s ctx)
    unfolding get_tenant_api_keys
    get_tenant_api_keys-Keeps = search (keeps_rules, list_api_keys-Keeps) depth 14

    pub delete_tenant_api_key-Keeps : (path : Text) → KeepsApi P (delete_tenant_api_key s ctx path)
    unfolding delete_tenant_api_key
    delete_tenant_api_key-Keeps path = some-KeepsApi P _ ctx.tenant_id _ λ tid at_tid.
        let admitted_for = mine_ctx tid at_tid in search (keeps_rules, calls.revokes) depth 10

    pub post_payment-Keeps : (r : HttpRequest) → KeepsApi P (post_payment s ctx r)
    unfolding post_payment
    post_payment-Keeps r = some-KeepsApi P _ ctx.tenant_id _ λ tid at_tid.
        bind-KeepsApi P _ _ (reply_if-KeepsApi P _ _) λ _. some-KeepsApi P _ r.body _ λ body _.
          some-KeepsApi P _ (s.codec.decode_payment body) _ λ x decoded.
            let admitted_for = mine_ctx tid at_tid in
            let fits = small body x decoded in search (keeps_rules, calls.pays) depth 8

    pub get_payment-Keeps : (path : Text) → KeepsApi P (get_payment s ctx path)
    unfolding get_payment
    get_payment-Keeps path = search (keeps_rules, get-Keeps, list_by_payment-Keeps) depth 14

    pub post_refund-Keeps : (path : Text) (r : HttpRequest) → KeepsApi P (post_refund s ctx path r)
    unfolding post_refund
    post_refund-Keeps path r = some-KeepsApi P _ ctx.tenant_id _ λ tid at_tid.
        let admitted_for = mine_ctx tid at_tid in search (keeps_rules, calls.refunds) depth 16

    pub get_refund_call-Keeps : (path : Text) → KeepsApi P (get_refund s ctx path)
    unfolding get_refund
    get_refund_call-Keeps path = search (keeps_rules, get_refund-Keeps) depth 14

    pub patch_tenant_webhook-Keeps : (r : HttpRequest) → KeepsApi P (patch_tenant_webhook s ctx r)
    unfolding patch_tenant_webhook
    patch_tenant_webhook-Keeps r = some-KeepsApi P _ ctx.tenant_id _ λ tid at_tid.
        let admitted_for = mine_ctx tid at_tid in search (keeps_rules, calls.hooks) depth 14

    pub list_webhook_deliveries-Keeps :
        (r : HttpRequest) → KeepsApi P (list_webhook_deliveries s ctx r)
    unfolding list_webhook_deliveries
    list_webhook_deliveries-Keeps r = search (keeps_rules, list_deliveries-Keeps) depth 14

    pub get_webhook_delivery-Keeps : (path : Text) → KeepsApi P (get_webhook_delivery s ctx path)
    unfolding get_webhook_delivery
    get_webhook_delivery-Keeps path = search (keeps_rules, get_delivery-Keeps) depth 14

    pub retry-Keeps : (path : Text) → KeepsApi P (post_webhook_delivery_retry s ctx path)
    unfolding post_webhook_delivery_retry
    retry-Keeps path =
        let publishes = λ (did : ℕ).
          call_publisher-KeepsApi P (fail 503 (codes "enqueue_failed")) (s.publish did)
            (calls.publishes did) in
        some-KeepsApi P _ ctx.tenant_id _ λ tid at_tid.
          let admitted_for = mine_ctx tid at_tid in
          search (keeps_rules, delivery_status-Keeps, calls.reopens, publishes) depth 18

  pub admission_context-Keeps :
      (ctx : Context) (a : Admission) → KeepsApi P (admission_context ctx a)
  unfolding admission_context
  admission_context-Keeps ctx missing_api_key = search keeps_rules
  admission_context-Keeps ctx invalid_api_key = search keeps_rules
  admission_context-Keeps ctx (admitted tid kid) = search keeps_rules

  pub middleware_api_key-Keeps :
      (r : HttpRequest) (ctx : Context) → KeepsApi P (middleware_api_key s r ctx)
  unfolding middleware_api_key
  middleware_api_key-Keeps r ctx =
      search (keeps_rules, calls.audits, authenticate-Keeps, admission_context-Keeps) depth 8

  pub me_by_key-Keeps : (raw : Text) (ctx : Context) → KeepsApi P (me_by_key s raw ctx)
  unfolding me_by_key
  me_by_key-Keeps raw ctx = search (keeps_rules, lookup-Keeps) depth 8

  pub me_by_token-Keeps :
      (r : HttpRequest) (ctx : Context) (o : Option (ℕ × ℕ)) → KeepsApi P (me_by_token r ctx o)
  unfolding me_by_token
  me_by_token-Keeps r ctx none = search (keeps_rules, calls.audits) depth 8
  me_by_token-Keeps r ctx (some (tid, uid)) = search keeps_rules

  if-KeepsApi :
      {A : Type 0} (b : Bool) (m n : Api A)
      → KeepsApi P m
      → KeepsApi P n
      → KeepsApi P (if b then m else n)
  if-KeepsApi true m n hm hn = hm
  if-KeepsApi false m n hm hn = hn

  pub me_auth-Keeps : (r : HttpRequest) (ctx : Context) → KeepsApi P (me_auth s r ctx)
  unfolding me_auth
  me_auth-Keeps r ctx =
      search (keeps_rules, if-KeepsApi, me_by_key-Keeps, me_by_token-Keeps) depth 8
