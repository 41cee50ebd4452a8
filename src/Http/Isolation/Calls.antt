-- ===== src/Http/Isolation/Calls.antt =====
-- The calls of the database that the handlers of payflow-app/internal/httpapi make, and the rows of
-- another tenant.
use payflow_payments_ops_pla.Base.{ℕ, ⊤, refl, ◌≡◌, ◌≢◌, ◌∙◌, ap, Option, List, ◌==◌, arith, ℤ}
use payflow_payments_ops_pla.Text.{Text}
use payflow_payments_ops_pla.Store.{
  Db, Env, Draw, DashboardUser, AuditType, Object, stmt, exec, transact,
}
use payflow_payments_ops_pla.Store.Keeps.{exec-Keeps}
use payflow_payments_ops_pla.Queue.{World}
use payflow_payments_ops_pla.Audit.{write}
use payflow_payments_ops_pla.Payment
use payflow_payments_ops_pla.Refund
use payflow_payments_ops_pla.Tenants.{create_tenant, revoke_api_key}
use payflow_payments_ops_pla.Http.Accounts.{insert_user}
use payflow_payments_ops_pla.Http.Deliveries.{set_webhook, reopened, reopen}
use payflow_payments_ops_pla.Http.{Server}
use payflow_payments_ops_pla.Http.Keeps.Calls.{Calls}
use payflow_payments_ops_pla.Http.Keeps.{KeepsTx, transact-KeepsTx, raise_if-transact-KeepsTx}
use payflow_payments_ops_pla.Http.Isolation.{
  rows_of, Same, select-update_where, unseen, write-Same, create_payment-Same, create_refund-Same,
  revoke_tx-Same, create_tenant_tx-Same,
}

module _ (v : ℕ) (old : Db) where
  audit-Same :
      (tid : Option ℕ) (t : AuditType) (o : Object)
      → KeepsTx (Same v old) (transact (write tid t o))
  audit-Same tid t o = transact-KeepsTx (Same v old) _ (write-Same v old tid t o)

  create_tenant-Same :
      (env : Env) (draw : Draw) (kid : ℕ) (bytes : Option (List ℕ)) (text : Text)
      → draw.row_id ≢ v
      → KeepsTx (Same v old) (create_tenant env draw kid bytes text)
  unfolding create_tenant
  create_tenant-Same env draw kid bytes text fresh =
      raise_if-transact-KeepsTx (Same v old) _ _ _
        (create_tenant_tx-Same v old env draw kid bytes text fresh)

  module _ (tid : ℕ) (differs : tid ≢ v) where
    insert_user-Same :
        (u : DashboardUser)
        → u.tenant_id ≡ tid
        → KeepsTx (Same v old) (transact (stmt (insert_user u)))
    unfolding insert_user
    insert_user-Same u e = transact-KeepsTx (Same v old) _ (unseen v old _ λ db. ground arith)

    create-Same :
        (env : Env) (draw : Draw) (key : Text) (amount : ℤ) (cur : Text)
        → KeepsTx (Same v old) (Payment.create env draw tid key amount cur)
    unfolding Payment.create
    create-Same env draw key amount cur =
        raise_if-transact-KeepsTx (Same v old) _ _ _
          (create_payment-Same v old tid differs env draw key amount _)

    create_refund_call-Same :
        (env : Env) (draw : Draw) (pid : ℕ) (key : Text) (amount : ℤ)
        → KeepsTx (Same v old) (Refund.create env draw tid pid key amount)
    unfolding Refund.create
    create_refund_call-Same env draw pid key amount =
        raise_if-transact-KeepsTx (Same v old) _ _ _
          (create_refund-Same v old tid differs env draw pid key amount)

    revoke_api_key-Same :
        (env : Env) (now kid : ℕ) → KeepsTx (Same v old) (revoke_api_key env now tid kid)
    unfolding revoke_api_key
    revoke_api_key-Same env now kid =
        transact-KeepsTx (Same v old) _ (revoke_tx-Same v old tid differs env now kid)

    set_webhook-Same :
        (url secret : Text) → KeepsTx (Same v old) (transact (exec (set_webhook tid url secret)))
    set_webhook-Same url secret = transact-KeepsTx (Same v old) _ (
        exec-Keeps (Same v old) _ λ db before.
          ap (λ ts. record (rows_of v db) { tenant = ts })
            (select-update_where (λ t. t.id == v) (λ t. t.id == tid) _ db.tenants
              (λ t hit. ground arith) (λ t hit. ground arith))
          ∙ before)

    reopen-Same : (now did : ℕ) → KeepsTx (Same v old) (transact (exec (reopen now tid did)))
    reopen-Same now did = transact-KeepsTx (Same v old) _ (
        exec-Keeps (Same v old) _ λ db before.
          ap (λ ds. record (rows_of v db) { webhook_deliveries = ds })
            (select-update_where (λ d. d.tenant_id == v) _ (reopened now) db.webhook_deliveries
              (λ d hit. ground arith) (λ d hit. ground arith))
          ∙ before)

-- For the tenants other than `v`, whose id no new row takes.
pub calls-Same :
    (v : ℕ) (old : Db) (s : Server)
    → s.draw.row_id ≢ v
    → ((did : ℕ) (x : World) → (s.publish did x).1.store.db ≡ x.store.db)
    → Calls (Same v old) s (λ tid. tid ≢ v) (λ amount. ⊤)
calls-Same v old s fresh apart = record {
  audits = audit-Same v old;
  creates_tenant = λ text. create_tenant-Same v old s.env s.draw s.new_key_id s.random text fresh;
  inserts_user = λ u other. insert_user-Same v old u.tenant_id other u refl;
  pays = λ tid key amount cur other _. create-Same v old tid other s.env s.draw key amount cur;
  refunds = λ tid pid key amount other.
      create_refund_call-Same v old tid other s.env s.draw pid key amount;
  revokes = λ tid kid other. revoke_api_key-Same v old tid other s.env s.draw.now kid;
  hooks = λ tid url secret other. set_webhook-Same v old tid other url secret;
  reopens = λ tid did other. reopen-Same v old tid other s.draw.now did;
  publishes = λ did x before. rw (apart did x) before;
}
