-- ===== src/Auth.antt =====
-- payflow-app/internal/auth/context.go and jwt.go: the values that a request's context carries, and
-- the tokens of the dashboard.
pub mod Tokens
use payflow_payments_ops_pla.Base.{
  ℕ, ◌+◌, Bool, true, false, Option, none, some, List, [], ◌∷◌, ◌==◌, if◌then◌else◌,
}
use payflow_payments_ops_pla.Text.{Text, is_empty, codes, trim_space}
use payflow_payments_ops_pla.Store.{Env}

-- PrincipalAPIKey and PrincipalDashboard.
pub data PrincipalKind : Type 0 where
  api_key dashboard : PrincipalKind

abbrev pub kind_text : PrincipalKind → Text
kind_text api_key = codes "api_key"
kind_text dashboard = codes "dashboard"

-- The context's values under the keys of this package.
pub record Context : Type 0 where
  pub request_id : Option Text
  pub tenant_id : Option ℕ
  pub principal : Option PrincipalKind
  pub subject_id : Option ℕ

-- context.Background().
abbrev pub background : Context
background = record { request_id = none; tenant_id = none; principal = none; subject_id = none }

-- WithRequestID.
abbrev pub with_request_id : Text → Context → Context
with_request_id id ctx = record ctx { request_id = some id }

-- WithTenantPrincipal.
abbrev pub with_tenant_principal : ℕ → PrincipalKind → ℕ → Context → Context
with_tenant_principal tid kind subject ctx = record ctx {
  tenant_id = some tid;
  principal = some kind;
  subject_id = some subject;
}

-- The claims that SignDashboardToken writes.
pub record Claims : Type 0 where
  pub sub : Text
  pub tid : Text
  pub iat : ℕ
  pub exp : ℕ

-- The claims of a parsed token, as ParseDashboardBearer reads them: `none` for one that is missing
-- or no string.
pub record MapClaims : Type 0 where
  pub sub : Option Text
  pub tid : Option Text

-- github.com/golang-jwt/jwt: SignedString with HS256, and Parse at a time with a key function,
-- which is told whether the token's method is HS256. `none` is an error or a token that is not valid.
pub record Jwt : Type 0 where
  pub signed_string : Text → Claims → Option Text
  pub parse : ℕ → (Bool → Option Text) → Text → Option MapClaims

-- SignDashboardToken, with the lifetime in seconds.
unfoldable pub sign_dashboard_token : Env → Jwt → Text → ℕ → ℕ → ℕ → ℕ → Option Text
sign_dashboard_token env jwt secret tid uid ttl now =
    jwt.signed_string secret
      (record { sub = env.uuid_string uid; tid = env.uuid_string tid; iat = now; exp = now + ttl })

-- strings.TrimPrefix, or `none` where strings.HasPrefix is false.
strip_prefix : Text → Text → Option Text
strip_prefix [] s = some s
strip_prefix (_ ∷ _) [] = none
strip_prefix (a ∷ p) (b ∷ s) = if a == b then strip_prefix p s else none

unfoldable pub bearer : Text → Option Text
unfolding strip_prefix
bearer header = strip_prefix (codes "Bearer ") header

-- The key function of ParseDashboardBearer.
abbrev pub hs256_only : Text → Bool → Option Text
hs256_only secret true = some secret
hs256_only secret false = none

-- Both UUIDs of the claims: the tenant's and the user's.
parse_claims : Env → MapClaims → Option (ℕ × ℕ)
parse_claims env claims = elim claims.tid [
  | none ↦ none
  | some tid_text ↦ elim claims.sub [
    | none ↦ none
    | some sub_text ↦ elim (env.uuid_parse tid_text) [
      | none ↦ none
      | some tid ↦ elim (env.uuid_parse sub_text) [ none ↦ none | some uid ↦ some (tid, uid) ]
    ]
  ]
]

-- ParseDashboardBearer: the tenant and the user, or an error.
unfoldable pub parse_dashboard_bearer : Env → Jwt → Text → ℕ → Text → Option (ℕ × ℕ)
unfolding parse_claims
parse_dashboard_bearer env jwt secret now header = elim (bearer header) [
  | none ↦ none
  | some rest ↦ elim (jwt.parse now (hs256_only secret) (trim_space rest)) [
    | none ↦ none
    | some claims ↦ parse_claims env claims
  ]
]
