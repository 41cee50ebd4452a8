-- ===== src/Tests/Dashboard.antt =====
-- Tokens and log-ins of the dashboard.
use payflow_payments_ops_pla.Base.{◌≡◌, refl, some, [], ◌∷◌, ◌++◌, arith, pos}
use payflow_payments_ops_pla.Text.{Text, codes, byte_len, to_lower, trim_space}
use payflow_payments_ops_pla.Store.{stmt, transact}
use payflow_payments_ops_pla.Queue.{World}
use payflow_payments_ops_pla.Audit
use payflow_payments_ops_pla.Auth.{
  Context, api_key, dashboard, background, with_tenant_principal, sign_dashboard_token,
}
use payflow_payments_ops_pla.Webhook.Process.Rounds.{world}
use payflow_payments_ops_pla.Http.{HttpRequest, post, json, number, string, going, run}
use payflow_payments_ops_pla.Http.Accounts.{insert_user, post_dashboard_user, post_auth_login}
use payflow_payments_ops_pla.Http.Middleware.{me_auth}
use payflow_payments_ops_pla.Http.Login.{me_auth-post_auth_login}
use payflow_payments_ops_pla.Tests.Server.{
  address, password, demo_jwt-JwtLaws, demo_server, shop_db, shop_world, patch_request,
}

-- Of user 70 and tenant 7, until the second 87400.
abbrev token : Text
token = 1 ∷ 87400 ∷ 70 ∷ 7 ∷ []

abbrev by_shop : Context
by_shop = with_tenant_principal 7 api_key 3 background

abbrev post_request : HttpRequest
post_request = record patch_request { method = post; body = some (codes "{}") }

abbrev me_request : HttpRequest
me_request = record patch_request { api_key_header = []; authorization = codes "Bearer " ++ token }

-- The world after the user was created.
abbrev created : World
created = (run (post_dashboard_user demo_server by_shop (7 ∷ []) post_request) shop_world).1

me_auth-post_auth_login_example :
    ((run (post_auth_login demo_server post_request) (world created.store.db [] [] [])).0
      ≡ json (
          (codes "access_token", string token)
          ∷ (codes "token_type", string (codes "Bearer"))
          ∷ (codes "expires_in", number (pos 86400))
          ∷ []))
    × (me_auth (record demo_server { unix_now = 5000 }) me_request background shop_world
        ≡ (going (with_tenant_principal 7 dashboard 70 background), shop_world))
unfolding post_dashboard_user insert_user Audit.write stmt transact sign_dashboard_token trim_space
    to_lower byte_len
me_auth-post_auth_login_example =
    me_auth-post_auth_login demo_server post_request post_request me_request by_shop background
      shop_db shop_world created (7 ∷ []) (codes "{}") address password password (codes "{}")
      address token 7 5000 refl refl refl refl refl refl refl refl refl refl demo_jwt-JwtLaws refl
      refl refl refl refl (omega arith)
