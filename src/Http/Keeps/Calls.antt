-- ===== src/Http/Keeps/Calls.antt =====
-- The calls of the database that the handlers of payflow-app/internal/httpapi make.
use payflow_payments_ops_pla.Base.{ℕ, [], ◌∷◌, inl, inr, Bool-cases, Option, none, arith, ℤ}
use payflow_payments_ops_pla.Text.{Text, codes, trim_space, is_empty}
use payflow_payments_ops_pla.Store.{
  Db, reason, str, Env, DashboardUser, AuditType, Object, ApiKey, api_key_auth_failure, Result, ok,
  err, TxState, stmt, exec, transact, Tx,
}
use payflow_payments_ops_pla.Queue.{World}
use payflow_payments_ops_pla.Audit.{write}
use payflow_payments_ops_pla.ApiKeys.{lookup, admit, authenticate, hash_api_key}
use payflow_payments_ops_pla.Ledger.{list_by_payment}
use payflow_payments_ops_pla.Payment
use payflow_payments_ops_pla.Refund
use payflow_payments_ops_pla.Tenants.{create_tenant, revoke_api_key, get_name, list_api_keys}
use payflow_payments_ops_pla.Webhook.Query.{list_deliveries, get_delivery}
use payflow_payments_ops_pla.Http.{Server}
use payflow_payments_ops_pla.Http.Accounts.{insert_user, find_user, outcome_of}
use payflow_payments_ops_pla.Http.Deliveries.{set_webhook, delivery_status, reopen}
use payflow_payments_ops_pla.Http.Keeps.{KeepsTx, KeepsApi, keeps_rules, stmt-KeepsTx}

-- What the calls that change something keep, on one server. `mine` says for which tenants the handlers
-- run, and `taken` which amounts a payment may have.
pub record Calls (P : Db → Type 0) (s : Server) (mine : ℕ → Type 0) (taken : ℤ → Type 0)
    : Type 0 where
  pub audits : (tid : Option ℕ) (t : AuditType) (o : Object) → KeepsTx P (transact (write tid t o))
  pub creates_tenant :
      (text : Text) → KeepsTx P (create_tenant s.env s.draw s.new_key_id s.random text)
  pub inserts_user :
      (u : DashboardUser) → mine u.tenant_id → KeepsTx P (transact (stmt (insert_user u)))
  pub pays :
      (tid : ℕ) (key : Text) (amount : ℤ) (cur : Text)
      → mine tid
      → taken amount
      → KeepsTx P (Payment.create s.env s.draw tid key amount cur)
  pub refunds :
      (tid pid : ℕ) (key : Text) (amount : ℤ)
      → mine tid
      → KeepsTx P (Refund.create s.env s.draw tid pid key amount)
  pub revokes : (tid kid : ℕ) → mine tid → KeepsTx P (revoke_api_key s.env s.draw.now tid kid)
  pub hooks :
      (tid : ℕ) (url secret : Text)
      → mine tid
      → KeepsTx P (transact (exec (set_webhook tid url secret)))
  pub reopens : (tid did : ℕ) → mine tid → KeepsTx P (transact (exec (reopen s.draw.now tid did)))
  pub publishes : (did : ℕ) (x : World) → P x.store.db → P (s.publish did x).1.store.db

module _ (P : Db → Type 0) where
  pub find_user-Keeps : (tid : ℕ) (address : Text) → KeepsTx P (find_user tid address)
  unfolding find_user
  find_user-Keeps tid address = stmt-KeepsTx P _ λ db before. ground arith

  pub outcome_of-Keeps : {A : Type 0} (m : Tx A) → KeepsTx P m → KeepsApi P (outcome_of m)
  outcome_of-Keeps m h = record { keeps = λ w before. h.keeps w.store before }

  pub lookup-Keeps : (hash : Text) → KeepsTx P (lookup hash)
  unfolding lookup
  lookup-Keeps hash = search keeps_rules depth 8

  pub get-Keeps : (tid pid : ℕ) → KeepsTx P (Payment.get tid pid)
  unfolding Payment.get
  get-Keeps tid pid = search keeps_rules depth 8

  pub get_refund-Keeps : (tid rid : ℕ) → KeepsTx P (Refund.get tid rid)
  unfolding Refund.get
  get_refund-Keeps tid rid = search keeps_rules depth 8

  pub get_name-Keeps : (tid : ℕ) → KeepsTx P (get_name tid)
  unfolding get_name
  get_name-Keeps tid = search keeps_rules depth 8

  pub get_delivery-Keeps : (tid did : ℕ) → KeepsTx P (get_delivery tid did)
  unfolding get_delivery
  get_delivery-Keeps tid did = search keeps_rules depth 8

  pub list_by_payment-Keeps : (tid pid : ℕ) → KeepsTx P (list_by_payment tid pid)
  unfolding list_by_payment
  list_by_payment-Keeps tid pid = search keeps_rules depth 8

  pub list_api_keys-Keeps : (tid : ℕ) → KeepsTx P (list_api_keys tid)
  unfolding list_api_keys
  list_api_keys-Keeps tid = search keeps_rules depth 8

  pub list_deliveries-Keeps :
      (tid : ℕ) (status : Text) (limit : ℕ) → KeepsTx P (list_deliveries tid status limit)
  unfolding list_deliveries
  list_deliveries-Keeps tid status limit = search keeps_rules depth 8

  pub delivery_status-Keeps : (tid did : ℕ) → KeepsTx P (delivery_status tid did)
  unfolding delivery_status
  delivery_status-Keeps tid did = stmt-KeepsTx P _ λ db before. ground arith

  admit-Keeps :
      KeepsTx P (
        transact
          (write none api_key_auth_failure ((reason, str (codes "invalid_or_revoked")) ∷ [])))
      → (out : Result ApiKey × TxState) → P out.1.db
      → P (admit out).1.db
  unfolding admit
  admit-Keeps audit (ok k, s) before = before
  admit-Keeps audit (err e, s) before = audit.keeps s before

  pub authenticate-Keeps :
      KeepsTx P (
        transact
          (write none api_key_auth_failure ((reason, str (codes "invalid_or_revoked")) ∷ [])))
      → (env : Env) (header : Text) → KeepsTx P (authenticate env header)
  unfolding authenticate
  authenticate-Keeps audit env header = record {
    keeps = λ s before. elim (Bool-cases (is_empty (trim_space header))) [
      | inl blank ↦ rw blank before
      | inr given ↦ rw given (
          admit-Keeps audit (lookup (hash_api_key env (trim_space header)) s)
            ((lookup-Keeps _).keeps s before))
    ];
  }
