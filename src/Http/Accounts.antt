-- ===== src/Http/Accounts.antt =====
-- payflow-app/internal/httpapi/handlers.go and handlers_apikeys.go: tenants, users of the dashboard
-- and API keys.
use payflow_payments_ops_pla.Base.{
  ℕ, Bool, true, false, not, ◌&&◌, ◌||◌, Option, none, some, [], ◌∷◌, map, find, any, ltb, ◌==◌,
  if◌then◌else◌, pos,
}
use payflow_payments_ops_pla.Text.{Text, text_eq, is_empty, codes, byte_len, trim_space, to_lower}
use payflow_payments_ops_pla.Store.{
  Db, Env, DashboardUser, dashboard_user_created, dashboard_login_success, dashboard_login_failure,
  email, user_id, reason, str, Error, invalid_name, no_rows, db_error, Result, ok, err, Tx, stmt,
  transact,
}
use payflow_payments_ops_pla.Audit
use payflow_payments_ops_pla.Auth.{
  Context, PrincipalKind, api_key, dashboard, kind_text, sign_dashboard_token,
}
use payflow_payments_ops_pla.Tenants
use payflow_payments_ops_pla.Tenants.{ApiKeyInfo}
use payflow_payments_ops_pla.Http.{
  HttpRequest, number, string, boolean, Row, Response, fail, json, json_list, json_with, Server,
  Api, pure, or_reply, call, drop_error, reply_if, ◌>>=◌, ◌>>◌,
}

abbrev ok_row : Row
ok_row = (codes "ok", boolean true) ∷ []

create_error : Error → Response
create_error invalid_name = fail 400 (codes "invalid_tenant_name")
create_error _ = fail 500 (codes "create_failed")

-- postTenants.
unfoldable pub post_tenants : Server → HttpRequest → Api Response
unfolding create_error
post_tenants s r = do
  body ← or_reply (fail 400 (codes "invalid_json")) r.body
  name ← or_reply (fail 400 (codes "invalid_json")) (s.codec.decode_name body)
  (tid, key) ← call create_error (Tenants.create_tenant s.env s.draw s.new_key_id s.random name)
  pure (
      json
        ((codes "tenant_id", string (s.env.uuid_string tid)) ∷ (codes "api_key", string key) ∷ []))

-- `pk, _ := auth.Principal(ctx)`, as a string.
abbrev principal_text : Option PrincipalKind → Text
principal_text none = []
principal_text (some kind) = kind_text kind

-- getTenantsMe.
unfoldable pub get_tenants_me : Server → Context → Api Response
get_tenants_me s ctx = do
  tid ← or_reply (fail 401 (codes "no_tenant")) ctx.tenant_id
  name ← call (λ e. fail 404 (codes "not_found")) (Tenants.get_name tid)
  pure (
      json (
        (codes "tenant_id", string (s.env.uuid_string tid))
        ∷ (codes "name", string name)
        ∷ (codes "principal", string (principal_text ctx.principal))
        ∷ []))

-- INSERT INTO dashboard_users … RETURNING id, with UNIQUE (tenant_id, email).
unfoldable pub insert_user : DashboardUser → Db → Result ℕ × Db
insert_user u db =
    if any (λ x. x.tenant_id == u.tenant_id && text_eq x.email u.email) db.dashboard_users
      || any (λ x. x.id == u.id) db.dashboard_users
    then (err db_error, db)
    else (ok u.id, record db { dashboard_users = u ∷ db.dashboard_users })

-- strings.TrimSpace(strings.ToLower(…)).
abbrev pub normalize_email : Env → Text → Text
normalize_email env raw = trim_space (to_lower env.lower_table raw)

abbrev is_api_key : Option PrincipalKind → Bool
is_api_key none = false
is_api_key (some api_key) = true
is_api_key (some dashboard) = false

-- postDashboardUser, with the path's tenant.
unfoldable pub post_dashboard_user : Server → Context → Text → HttpRequest → Api Response
unfolding insert_user
post_dashboard_user s ctx path_tenant r = do
  tid ← or_reply (fail 403 (codes "forbidden")) ctx.tenant_id
  reply_if (not (is_api_key ctx.principal)) (fail 403 (codes "forbidden"))
  path_id ← or_reply (fail 403 (codes "tenant_mismatch")) (s.env.uuid_parse path_tenant)
  reply_if (not (path_id == tid)) (fail 403 (codes "tenant_mismatch"))
  body ← or_reply (fail 400 (codes "invalid_json")) r.body
  (raw_email, password) ← or_reply (fail 400 (codes "invalid_json")) (s.codec.decode_user body)
  let address = normalize_email s.env raw_email
  reply_if (is_empty address || ltb (byte_len password) 10) (fail 400 (codes "invalid_credentials"))
  hash ← or_reply (fail 500 (codes "hash_failed")) (s.bcrypt.generate password)
  let user : DashboardUser = record {
    id = s.draw.row_id;
    tenant_id = tid;
    email = address;
    password_hash = hash;
  }
  uid ← call (λ e. fail 409 (codes "user_create_failed")) (transact (stmt (insert_user user)))
  drop_error (
      transact (
        Audit.write (some tid) dashboard_user_created
          ((email, str address) ∷ (user_id, str (s.env.uuid_string uid)) ∷ [])))
  pure (json_with 201 ((codes "user_id", string (s.env.uuid_string uid)) ∷ []))

-- WHERE tenant_id = $1 AND email = $2.
abbrev pub is_user : ℕ → Text → DashboardUser → Bool
is_user tid address u = u.tenant_id == tid && text_eq u.email address

-- The audit entry of a failed login, whose own error is dropped, and the reply.
abbrev pub login_failure : ℕ → Text → Text → Api Response
login_failure tid address why = do
  drop_error (
      transact (
        Audit.write (some tid) dashboard_login_failure
          ((email, str address) ∷ (reason, str why) ∷ [])))
  pure (fail 401 (codes "invalid_credentials"))

-- The rest of postAuthLogin, once the query has an answer; any error of it counts as an unknown user.
unfoldable pub login_as : Server → ℕ → Text → Text → Result DashboardUser → Api Response
login_as s tid address password (err e) = login_failure tid address (codes "unknown_user")
login_as s tid address password (ok u) =
    if not (s.bcrypt.matches u.password_hash password)
    then login_failure tid address (codes "bad_password")
    else do
      token ←
          or_reply (fail 500 (codes "token_failed"))
            (sign_dashboard_token s.env s.jwt s.jwt_secret tid u.id 86400 s.unix_now)
      drop_error (
          transact (
            Audit.write (some tid) dashboard_login_success
              ((email, str address) ∷ (user_id, str (s.env.uuid_string u.id)) ∷ [])))
      pure (
          json (
            (codes "access_token", string token)
            ∷ (codes "token_type", string (codes "Bearer"))
            ∷ (codes "expires_in", number (pos 86400))
            ∷ []))

-- A call whose error the handler looks at itself.
abbrev pub outcome_of : {A : Type 0} → Tx A → Api (Result A)
outcome_of m w = let (out, s) = m w.store in (pure out (record w { store = s }))

unfoldable pub find_user : ℕ → Text → Tx DashboardUser
find_user tid address = stmt λ db. elim (find (is_user tid address) db.dashboard_users) [
  | none ↦ (err no_rows, db)
  | some u ↦ (ok u, db)
]

-- postAuthLogin.
unfoldable pub post_auth_login : Server → HttpRequest → Api Response
unfolding login_as find_user
post_auth_login s r = do
  body ← or_reply (fail 400 (codes "invalid_json")) r.body
  (tid, raw_email, password) ←
      or_reply (fail 400 (codes "invalid_json")) (s.codec.decode_login body)
  let address = normalize_email s.env raw_email
  out ← outcome_of (find_user tid address)
  login_as s tid address password out

abbrev revoked_cell : Server → Option ℕ → Row
revoked_cell s none = []
revoked_cell s (some t) = (codes "revoked_at", string (s.codec.rfc3339 t)) ∷ []

abbrev pub key_row : Server → ApiKeyInfo → Row
key_row s k =
    (codes "id", string (s.env.uuid_string k.id))
    ∷ (codes "key_prefix", string k.key_prefix)
    ∷ (codes "created_at", string (s.codec.rfc3339 k.created_at))
    ∷ revoked_cell s k.revoked_at

-- getTenantAPIKeys.
unfoldable pub get_tenant_api_keys : Server → Context → Api Response
get_tenant_api_keys s ctx = do
  tid ← or_reply (fail 401 (codes "no_tenant")) ctx.tenant_id
  keys ← call (λ e. fail 500 (codes "list_failed")) (Tenants.list_api_keys tid)
  pure (json_list [] (codes "api_keys") (map (key_row s) keys))

revoke_error : Error → Response
revoke_error no_rows = fail 404 (codes "not_found")
revoke_error _ = fail 500 (codes "revoke_failed")

-- deleteTenantAPIKey, with the path's key.
unfoldable pub delete_tenant_api_key : Server → Context → Text → Api Response
unfolding revoke_error
delete_tenant_api_key s ctx path_key = do
  tid ← or_reply (fail 401 (codes "no_tenant")) ctx.tenant_id
  kid ← or_reply (fail 400 (codes "invalid_id")) (s.env.uuid_parse path_key)
  call revoke_error (Tenants.revoke_api_key s.env s.draw.now tid kid)
  pure (json ok_row)
