-- ===== src/Auth/Tokens.antt =====
-- SignDashboardToken and ParseDashboardBearer of payflow-app/internal/auth/jwt.go together.
use payflow_payments_ops_pla.Base.{ℕ, ◌+◌, ◌<◌, ◌≡◌, refl, Bool, true, Option, some, ◌++◌, arith}
use payflow_payments_ops_pla.Text.{Text, codes, trim_space}
use payflow_payments_ops_pla.Store.{Env}
use payflow_payments_ops_pla.Auth.{
  Claims, Jwt, sign_dashboard_token, bearer, hs256_only, parse_dashboard_bearer,
}

-- What the two functions rely on: a token that was signed with a secret parses under a key function
-- that gives this secret for HS256, until it expires, and yields the claims.
pub record JwtLaws (jwt : Jwt) : Type 0 where
  pub parse-signed_string :
      (secret token : Text) (claims : Claims) (now : ℕ) (key : Bool → Option Text)
      → jwt.signed_string secret claims ≡ some token
      → key true ≡ some secret
      → now < claims.exp
      → jwt.parse now key token ≡ some (record { sub = some claims.sub; tid = some claims.tid })

bearer_lem : (token : Text) → bearer (codes "Bearer " ++ token) ≡ some token
unfolding bearer
bearer_lem token = refl

-- A token that SignDashboardToken signs, sent in an Authorization header before it expires, is
-- parsed into the tenant and the user that it was signed for. The token has no white space around
-- it, both UUIDs parse back from their texts, and the library reads what it signs.
pub parse_dashboard_bearer-sign_dashboard_token :
    (env : Env) (jwt : Jwt) (secret : Text) (tid uid ttl now later : ℕ) (token : Text)
    → JwtLaws jwt
    → sign_dashboard_token env jwt secret tid uid ttl now ≡ some token
    → later < now + ttl
    → trim_space token ≡ token
    → env.uuid_parse (env.uuid_string tid) ≡ some tid
    → env.uuid_parse (env.uuid_string uid) ≡ some uid
    → parse_dashboard_bearer env jwt secret later (codes "Bearer " ++ token) ≡ some (tid, uid)
unfolding sign_dashboard_token parse_dashboard_bearer
parse_dashboard_bearer-sign_dashboard_token env jwt secret tid uid ttl now later token laws signed
      live plain tid_back uid_back =
    let parsed =
      laws.parse-signed_string secret token _ later (hs256_only secret) signed refl live in
    ground (arith, bearer_lem token, plain, parsed, tid_back, uid_back)
