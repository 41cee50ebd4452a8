-- ===== src/Http/Login.antt =====
-- Users of the dashboard (payflow-app/internal/httpapi/handlers.go): creation, login, and the token
-- at MeAuth.
use payflow_payments_ops_pla.Base.{
  ℕ, ◌+◌, ◌<◌, ◌≡◌, true, some, List, [], ◌∷◌, ◌++◌, find, arith, pos,
}
use payflow_payments_ops_pla.Text.{Text, text_eq_refl, codes, is_empty, trim_space}
use payflow_payments_ops_pla.Store.{Db, DashboardUser, stmt, transact}
use payflow_payments_ops_pla.Queue.{World, Job, Request}
use payflow_payments_ops_pla.Audit.{write}
use payflow_payments_ops_pla.Webhook.Process.Rounds.{world}
use payflow_payments_ops_pla.Auth.{
  Context, dashboard, with_tenant_principal, bearer, sign_dashboard_token, parse_dashboard_bearer,
}
use payflow_payments_ops_pla.Auth.Tokens.{JwtLaws, parse_dashboard_bearer-sign_dashboard_token}
use payflow_payments_ops_pla.Http.{HttpRequest, Server, json, json_with, number, string, going, run}
use payflow_payments_ops_pla.Http.Accounts.{
  normalize_email, is_user, post_dashboard_user, post_auth_login,
}
use payflow_payments_ops_pla.Http.Middleware.{me_auth}

module _ (s : Server) (r : HttpRequest) (db : Db) (published : List Job) (sent : List Request)
    (waits : List ℕ) where
  -- A user that postDashboardUser created is found under the tenant and the address.
  created-user :
      (ctx : Context) (path body raw_email password hash : Text) (tid : ℕ) (w' : World)
      → ctx.tenant_id ≡ some tid
      → r.body ≡ some body
      → s.codec.decode_user body ≡ some (raw_email, password)
      → s.bcrypt.generate password ≡ some hash
      → run (post_dashboard_user s ctx path r) (world db published sent waits)
        ≡ (json_with 201 ((codes "user_id", string (s.env.uuid_string s.draw.row_id)) ∷ []), w')
      → find (is_user tid (normalize_email s.env raw_email)) w'.store.db.dashboard_users
        ≡ some (record {
          id = s.draw.row_id;
          tenant_id = tid;
          email = normalize_email s.env raw_email;
          password_hash = hash;
        })
  unfolding post_dashboard_user write stmt transact
  created-user ctx path body raw_email password hash tid w' tenant given decoded hashed run_201 =
      ground (arith, text_eq_refl (normalize_email s.env raw_email))

  login-token :
      (body raw_email password token : Text) (tid : ℕ) (u : DashboardUser)
      → r.body ≡ some body
      → s.codec.decode_login body ≡ some (tid, raw_email, password)
      → find (is_user tid (normalize_email s.env raw_email)) db.dashboard_users ≡ some u
      → s.bcrypt.matches u.password_hash password ≡ true
      → sign_dashboard_token s.env s.jwt s.jwt_secret tid u.id 86400 s.unix_now ≡ some token
      → (run (post_auth_login s r) (world db published sent waits)).0
        ≡ json (
            (codes "access_token", string token)
            ∷ (codes "token_type", string (codes "Bearer"))
            ∷ (codes "expires_in", number (pos 86400))
            ∷ [])
  unfolding post_auth_login stmt transact
  login-token body raw_email password token tid u given decoded found matches signed =
      ground (arith, found, matches, signed)

me_auth-token :
    (s : Server) (r : HttpRequest) (ctx : Context) (w : World) (token : Text) (tid uid : ℕ)
    → is_empty (trim_space r.api_key_header) ≡ true
    → r.authorization ≡ codes "Bearer " ++ token
    → parse_dashboard_bearer s.env s.jwt s.jwt_secret s.unix_now (codes "Bearer " ++ token)
      ≡ some (tid, uid)
    → me_auth s r ctx w ≡ (going (with_tenant_principal tid dashboard uid ctx), w)
unfolding me_auth bearer
me_auth-token s r ctx w token tid uid blank header parsed =
    rw (header, blank) (ground (arith, parsed))

-- A user that postDashboardUser has created logs in with the same password and an address that
-- reads the same: postAuthLogin replies with a token. Sent to MeAuth as a Bearer token within a day,
-- with no API key, it admits this user, for the tenant that created it. The database works; bcrypt
-- matches what it hashed; the JWT library reads what it signed, and its token has no white space
-- around it; both UUIDs parse back from their texts.
pub me_auth-post_auth_login :
    (s : Server) (create login me : HttpRequest) (ctx next : Context) (db : Db) (w w' : World)
    (path body raw_email password hash login_body again token : Text) (tid later : ℕ)
    → ctx.tenant_id ≡ some tid
    → create.body ≡ some body
    → s.codec.decode_user body ≡ some (raw_email, password)
    → s.bcrypt.generate password ≡ some hash
    → run (post_dashboard_user s ctx path create) (world db [] [] [])
      ≡ (json_with 201 ((codes "user_id", string (s.env.uuid_string s.draw.row_id)) ∷ []), w')
    → login.body ≡ some login_body
    → s.codec.decode_login login_body ≡ some (tid, again, password)
    → normalize_email s.env again ≡ normalize_email s.env raw_email
    → s.bcrypt.matches hash password ≡ true
    → sign_dashboard_token s.env s.jwt s.jwt_secret tid s.draw.row_id 86400 s.unix_now ≡ some token
    → JwtLaws s.jwt
    → trim_space token ≡ token
    → s.env.uuid_parse (s.env.uuid_string tid) ≡ some tid
    → s.env.uuid_parse (s.env.uuid_string s.draw.row_id) ≡ some s.draw.row_id
    → is_empty (trim_space me.api_key_header) ≡ true
    → me.authorization ≡ codes "Bearer " ++ token
    → later < s.unix_now + 86400
    → ((run (post_auth_login s login) (world w'.store.db [] [] [])).0
        ≡ json (
            (codes "access_token", string token)
            ∷ (codes "token_type", string (codes "Bearer"))
            ∷ (codes "expires_in", number (pos 86400))
            ∷ []))
      × (me_auth (record s { unix_now = later }) me next w
          ≡ (going (with_tenant_principal tid dashboard s.draw.row_id next), w))
me_auth-post_auth_login s create login me ctx next db w w' path body raw_email password hash
      login_body again token tid later tenant given decoded hashed made login_given login_decoded
      same matches signed laws plain tid_back uid_back blank header live =
    let found =
      created-user s create db [] [] [] ctx path body raw_email password hash tid w' tenant given
        decoded hashed made in
    let user : DashboardUser = record {
      id = s.draw.row_id;
      tenant_id = tid;
      email = normalize_email s.env raw_email;
      password_hash = hash;
    } in
    (
      login-token s login w'.store.db [] [] [] login_body again password token tid user login_given
          login_decoded (rw same found) matches signed,
      me_auth-token (record s { unix_now = later }) me next w token tid s.draw.row_id blank header
          (parse_dashboard_bearer-sign_dashboard_token s.env s.jwt s.jwt_secret tid s.draw.row_id
            86400 s.unix_now later token laws signed live plain tid_back uid_back),
    )
