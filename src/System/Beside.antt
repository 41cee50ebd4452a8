-- ===== src/System/Beside.antt =====
-- Transactions that leave the tables of payments, refunds, ledger and outbox alone.
use payflow_payments_ops_pla.Base.{ℕ, ◌≡◌, refl, ◌∙◌, subst, Option, List, arith}
use payflow_payments_ops_pla.Text.{Text}
use payflow_payments_ops_pla.Store.{
  Db, Env, Draw, DashboardUser, Delivery, AuditType, Object, Result, ok, err, Tx, stmt, exec,
  transact,
}
use payflow_payments_ops_pla.Store.Keeps.{Keeps, keep_rules, stmt-Keeps, exec-Keeps}
use payflow_payments_ops_pla.Audit.{write}
use payflow_payments_ops_pla.Tenants.{
  insert_tenant, insert_key, new_key, revoke, from_result, revoke_tx, create_tenant_tx,
  revoke_api_key, create_tenant,
}
use payflow_payments_ops_pla.Webhook.{insert_delivery}
use payflow_payments_ops_pla.Webhook.Process.{update_pending}
use payflow_payments_ops_pla.Http.Accounts.{insert_user}
use payflow_payments_ops_pla.Http.Deliveries.{set_webhook, reopen}
use payflow_payments_ops_pla.Http.Keeps.{KeepsTx, transact-KeepsTx, raise_if-transact-KeepsTx}
use payflow_payments_ops_pla.System.{beside, core, Reach, next}

module _ (old : Db) where
  abbrev pub Beside : Db → Type 0
  Beside db = core db ≡ core old

  stmt-Beside :
      {A : Type 0} (q : Db → Result A × Db)
      → ((db : Db) → core (q db).1 ≡ core db)
      → Keeps Beside (stmt q)
  stmt-Beside q same = stmt-Keeps Beside q λ db a db' run before.
      let e : (q db).1 ≡ db' = ground arith in subst Beside e (same db ∙ before)

  exec-Beside :
      (f : Db → Db) → ((db : Db) → core (f db) ≡ core db) → KeepsTx Beside (transact (exec f))
  exec-Beside f same = transact-KeepsTx Beside _ (exec-Keeps Beside f λ db before. same db ∙ before)

  write-Beside : (tid : Option ℕ) (t : AuditType) (o : Object) → Keeps Beside (write tid t o)
  unfolding write
  write-Beside tid t o = exec-Keeps Beside _ λ db before. before

  insert_tenant-Beside : (tid : ℕ) (text : Text) → Keeps Beside (stmt (insert_tenant tid text))
  unfolding insert_tenant
  insert_tenant-Beside tid text = stmt-Beside _ λ db. ground arith

  insert_key-Beside :
      (env : Env) (draw : Draw) (kid tid : ℕ) (raw : Text)
      → Keeps Beside (stmt (insert_key (new_key env draw kid tid raw)))
  unfolding insert_key
  insert_key-Beside env draw kid tid raw = stmt-Beside _ λ db. ground arith

  revoke-Beside : (now tid kid : ℕ) → Keeps Beside (stmt (revoke now tid kid))
  unfolding revoke
  revoke-Beside now tid kid = stmt-Beside _ λ db. refl

  from_result-Beside : (r : Result Text) → Keeps Beside (from_result r)
  unfolding from_result
  from_result-Beside (ok raw) = search keep_rules
  from_result-Beside (err e) = search keep_rules

  create_tenant_tx-Beside :
      (env : Env) (draw : Draw) (kid : ℕ) (bytes : Option (List ℕ)) (text : Text)
      → Keeps Beside (create_tenant_tx env draw kid bytes text)
  unfolding create_tenant_tx
  create_tenant_tx-Beside env draw kid bytes text =
      search (keep_rules, insert_tenant-Beside, insert_key-Beside, from_result-Beside, write-Beside)
        depth 16

  revoke_tx-Beside : (env : Env) (now tid kid : ℕ) → Keeps Beside (revoke_tx env now tid kid)
  unfolding revoke_tx
  revoke_tx-Beside env now tid kid = search (keep_rules, revoke-Beside, write-Beside) depth 10

  pub audit-Beside :
      (tid : Option ℕ) (t : AuditType) (o : Object) → KeepsTx Beside (transact (write tid t o))
  audit-Beside tid t o = transact-KeepsTx Beside _ (write-Beside tid t o)

  pub create_tenant-Beside :
      (env : Env) (draw : Draw) (kid : ℕ) (bytes : Option (List ℕ)) (text : Text)
      → KeepsTx Beside (create_tenant env draw kid bytes text)
  unfolding create_tenant
  create_tenant-Beside env draw kid bytes text =
      raise_if-transact-KeepsTx Beside _ _ _ (create_tenant_tx-Beside env draw kid bytes text)

  pub insert_user-Beside : (u : DashboardUser) → KeepsTx Beside (transact (stmt (insert_user u)))
  unfolding insert_user
  insert_user-Beside u = transact-KeepsTx Beside _ (stmt-Beside _ λ db. ground arith)

  pub revoke_api_key-Beside :
      (env : Env) (now tid kid : ℕ) → KeepsTx Beside (revoke_api_key env now tid kid)
  unfolding revoke_api_key
  revoke_api_key-Beside env now tid kid =
      transact-KeepsTx Beside _ (revoke_tx-Beside env now tid kid)

  pub set_webhook-Beside :
      (tid : ℕ) (url secret : Text) → KeepsTx Beside (transact (exec (set_webhook tid url secret)))
  set_webhook-Beside tid url secret = exec-Beside _ λ db. refl

  pub reopen-Beside : (now tid did : ℕ) → KeepsTx Beside (transact (exec (reopen now tid did)))
  reopen-Beside now tid did = exec-Beside _ λ db. refl

  pub insert_delivery-Beside : (d : Delivery) → KeepsTx Beside (transact (stmt (insert_delivery d)))
  unfolding insert_delivery
  insert_delivery-Beside d = transact-KeepsTx Beside _ (stmt-Beside _ λ db. ground arith)

  pub update_pending-Beside :
      (did : ℕ) (change : Delivery → Delivery)
      → KeepsTx Beside (transact (exec (update_pending did change)))
  update_pending-Beside did change = exec-Beside _ λ db. refl

-- A transaction of this kind is one step of a history.
pub step-Reach :
    {A : Type 0} (env : Env) (start : Db) (m : Tx A)
    → ((old : Db) → KeepsTx (Beside old) m)
    → KeepsTx (Reach env start) m
step-Reach env start m same = record {
  keeps = λ s before. next before (beside ((same s.db).keeps s refl));
}
