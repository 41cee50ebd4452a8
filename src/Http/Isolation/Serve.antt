-- ===== src/Http/Isolation/Serve.antt =====
-- A whole request, from payflow-app/internal/httpapi/router.go on, and the rows of another tenant.
use payflow_payments_ops_pla.Base.{ℕ, ◌≡◌, ◌≢◌, refl, ◌∙◌, ap, some, ⊤}
use payflow_payments_ops_pla.Queue.{World}
use payflow_payments_ops_pla.Auth.{Context}
use payflow_payments_ops_pla.Http.{HttpRequest, Server, going}
use payflow_payments_ops_pla.Http.Middleware.{me_auth, middleware_api_key}
use payflow_payments_ops_pla.Http.Router.{serve}
use payflow_payments_ops_pla.Http.Keeps.Serve.{serve-Keeps}
use payflow_payments_ops_pla.Http.Isolation.{rows_of, Same}
use payflow_payments_ops_pla.Http.Isolation.Calls.{calls-Same}

-- A request leaves alone the tenant row, keys, users, payments, ledger, refunds and deliveries of every
-- tenant that neither MeAuth nor MiddlewareAPIKey admits it for, whatever it asks, whatever the
-- database fails at and whatever it replies. The id that the database draws for a new row is not that
-- tenant's, and the publisher leaves the tables alone.
pub serve-rows_of :
    (v : ℕ) (s : Server) (r : HttpRequest) (w : World)
    → s.draw.row_id ≢ v
    → ((did : ℕ) (x : World) → (s.publish did x).1.store.db ≡ x.store.db)
    → ((ctx c : Context) → (me_auth s r ctx w).0 ≡ going c → c.tenant_id ≢ some v)
    → ((ctx c : Context) → (middleware_api_key s r ctx w).0 ≡ going c → c.tenant_id ≢ some v)
    → rows_of v (serve s r w).1.store.db ≡ rows_of v w.store.db
serve-rows_of v s r w fresh apart by_me by_key =
    serve-Keeps (Same v w.store.db) s (λ tid. tid ≢ v) (λ amount. ⊤)
      (calls-Same v w.store.db s fresh apart) (λ body x decoded. tt) r w refl
      (λ ctx c tid admitted at_tid is_v. by_me ctx c admitted (at_tid ∙ ap (λ t. some t) is_v))
      (λ ctx c tid admitted at_tid is_v. by_key ctx c admitted (at_tid ∙ ap (λ t. some t) is_v))
