-- ===== src/System/Requests.antt =====
-- A request to cmd/api (payflow-app/internal/httpapi/router.go) as a history of transactions.
use payflow_payments_ops_pla.Base.{ℕ, ◌<◌, ◌^◌, ◌≡◌, refl, ℤ, pos_part, some, ⊤}
use payflow_payments_ops_pla.Text.{Text}
use payflow_payments_ops_pla.Store.{Db}
use payflow_payments_ops_pla.Queue.{World}
use payflow_payments_ops_pla.Http.{HttpRequest, Server}
use payflow_payments_ops_pla.Http.Router.{serve}
use payflow_payments_ops_pla.Http.Keeps.Calls.{Calls}
use payflow_payments_ops_pla.Http.Keeps.Serve.{serve-Keeps}
use payflow_payments_ops_pla.System.{create_payment, create_refund, Reach, next}
use payflow_payments_ops_pla.System.Beside.{
  audit-Beside, create_tenant-Beside, insert_user-Beside, revoke_api_key-Beside, set_webhook-Beside,
  reopen-Beside, step-Reach,
}

calls-Reach :
    (start : Db) (s : Server)
    → ((did : ℕ) (x : World) → (s.publish did x).1.store.db ≡ x.store.db)
    → Calls (Reach s.env start) s (λ tid. ⊤) (λ amount. pos_part amount < 2 ^ 62)
calls-Reach start s apart = record {
  audits = λ tid t o. step-Reach s.env start _ (λ old. audit-Beside old tid t o);
  creates_tenant = λ text.
      step-Reach s.env start _
        (λ old. create_tenant-Beside old s.env s.draw s.new_key_id s.random text);
  inserts_user = λ u mine. step-Reach s.env start _ (λ old. insert_user-Beside old u);
  pays = λ tid key amount cur mine small. record {
    keeps = λ x before. next before (create_payment s.draw tid key amount cur x.faults small refl);
  };
  refunds = λ tid pid key amount mine. record {
    keeps = λ x before. next before (create_refund s.draw tid pid key amount x.faults refl);
  };
  revokes = λ tid kid mine.
      step-Reach s.env start _ (λ old. revoke_api_key-Beside old s.env s.draw.now tid kid);
  hooks = λ tid url secret mine.
      step-Reach s.env start _ (λ old. set_webhook-Beside old tid url secret);
  reopens = λ tid did mine. step-Reach s.env start _ (λ old. reopen-Beside old s.draw.now tid did);
  publishes = λ did x before. rw (apart did x) before;
}

pub serve-Reach :
    (start : Db) (s : Server) (r : HttpRequest) (w : World)
    → ((body : Text) (x : ℤ × Text) → s.codec.decode_payment body ≡ some x → pos_part x.0 < 2 ^ 62)
    → ((did : ℕ) (x : World) → (s.publish did x).1.store.db ≡ x.store.db)
    → Reach s.env start w.store.db
    → Reach s.env start (serve s r w).1.store.db
serve-Reach start s r w small apart before =
    serve-Keeps (Reach s.env start) s (λ tid. ⊤) (λ amount. pos_part amount < 2 ^ 62)
      (calls-Reach start s apart) small r w before (λ ctx c tid admitted at_tid. tt)
      (λ ctx c tid admitted at_tid. tt)
