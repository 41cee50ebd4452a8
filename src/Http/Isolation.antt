-- ===== src/Http/Isolation.antt =====
-- The rows of one tenant, and the transactions of the services.
pub mod Calls
pub mod Serve
use payflow_payments_ops_pla.Base.{
  ℕ, ◌≡◌, ◌≢◌, refl, sym, ◌∙◌, ap, subst, inl, inr, Bool, true, false, Bool-cases, Option, none,
  some, List, [], ◌∷◌, select, update_where, any, ◌==◌, ◌&&◌, ◌||◌, if◌then◌else◌, arith, ℤ, ⊤,
}
use payflow_payments_ops_pla.Text.{Text, trim_space}
use payflow_payments_ops_pla.Store.{
  Db, Env, Draw, Tenant, ApiKey, DashboardUser, Payment, LedgerEvent, LedgerType, Refund, Delivery,
  AuditType, Object, Result, ok, err, Tx, stmt, exec, ◌>>=◌,
}
use payflow_payments_ops_pla.Store.Keeps.{Keeps, keep_rules, stmt-Keeps, exec-Keeps}
use payflow_payments_ops_pla.Store.Faults.{FaultSafe, safe_rules, clean, bind-ok, bind-FaultSafe}
use payflow_payments_ops_pla.Audit.{write, write-FaultSafe}
use payflow_payments_ops_pla.Tenants.Safety.{from_result-FaultSafe}
use payflow_payments_ops_pla.Outbox.{insert_payment_settlement, insert_refund_settlement}
use payflow_payments_ops_pla.Ledger.{insert_event, append}
use payflow_payments_ops_pla.Payment.{insert_payment, new_payment}
use payflow_payments_ops_pla.Payment
use payflow_payments_ops_pla.Refund.{insert_refund, new_refund, sum_reserved, check_tx, insert_tx}
use payflow_payments_ops_pla.Refund
use payflow_payments_ops_pla.Tenants.{
  insert_tenant, insert_key, new_key, revoke, to_revoke, revoked, from_result, revoke_tx,
  create_tenant_tx,
}

-- What the tables hold of a tenant: its own row, keys, users, payments, ledger, refunds, deliveries.
pub record Rows : Type 0 where
  pub tenant : List Tenant
  pub api_keys : List ApiKey
  pub dashboard_users : List DashboardUser
  pub payments : List Payment
  pub ledger_events : List LedgerEvent
  pub refunds : List Refund
  pub webhook_deliveries : List Delivery

abbrev pub rows_of : ℕ → Db → Rows
rows_of v db = record {
  tenant = select (λ t. t.id == v) db.tenants;
  api_keys = select (λ k. k.tenant_id == v) db.api_keys;
  dashboard_users = select (λ u. u.tenant_id == v) db.dashboard_users;
  payments = select (λ p. p.tenant_id == v) db.payments;
  ledger_events = select (λ e. e.tenant_id == v) db.ledger_events;
  refunds = select (λ r. r.tenant_id == v) db.refunds;
  webhook_deliveries = select (λ d. d.tenant_id == v) db.webhook_deliveries;
}

pub select-update_where :
    {A : Type 0} (q p : A → Bool) (f : A → A) (xs : List A)
    → ((x : A) → p x ≡ true → q x ≡ false)
    → ((x : A) → p x ≡ true → q (f x) ≡ false)
    → select q (update_where p f xs) ≡ select q xs
select-update_where q p f [] before after = refl
select-update_where q p f (x ∷ xs) before after =
    ground (arith, before x, after x, select-update_where q p f xs before after)

module _ (v : ℕ) (old : Db) where
  abbrev pub Same : Db → Type 0
  Same db = rows_of v db ≡ rows_of v old

  pub unseen :
      {A : Type 0} (q : Db → Result A × Db)
      → ((db : Db) → rows_of v (q db).1 ≡ rows_of v db)
      → Keeps Same (stmt q)
  unseen q same = stmt-Keeps Same q λ db a db' run before.
      let e : (q db).1 ≡ db' = ground arith in subst Same e (same db ∙ before)

  pub write-Same : (tid : Option ℕ) (t : AuditType) (o : Object) → Keeps Same (write tid t o)
  unfolding write
  write-Same tid t o = exec-Keeps Same _ λ db before. before

  payment_outbox-Same :
      (env : Env) (draw : Draw) (pid : ℕ) → Keeps Same (insert_payment_settlement env draw pid)
  unfolding insert_payment_settlement
  payment_outbox-Same env draw pid = unseen _ λ db. ground arith

  refund_outbox-Same :
      (env : Env) (draw : Draw) (rid : ℕ) → Keeps Same (insert_refund_settlement env draw rid)
  unfolding insert_refund_settlement
  refund_outbox-Same env draw rid = unseen _ λ db. ground arith

  sum_reserved-Same : (pid : ℕ) → Keeps Same (stmt (sum_reserved pid))
  unfolding sum_reserved
  sum_reserved-Same pid = unseen _ λ db. ground arith

  check_tx-Same : (tid pid : ℕ) (amount : ℤ) (p : Payment) → Keeps Same (check_tx tid pid amount p)
  unfolding check_tx
  check_tx-Same tid pid amount p = search (keep_rules, sum_reserved-Same) depth 14

  from_result-Same : (r : Result Text) → Keeps Same (from_result r)
  unfolding from_result
  from_result-Same (ok raw) = search keep_rules
  from_result-Same (err e) = search keep_rules

  module _ (tid : ℕ) (other : tid ≢ v) where
    append-Same :
        (now pid : ℕ) (key : Text) (t : LedgerType) (payload : Object)
        → Keeps Same (append now tid pid key t payload)
    unfolding append insert_event
    append-Same now pid key t payload = unseen _ λ db. ground arith

    insert_payment-Same :
        (env : Env) (draw : Draw) (key : Text) (amount : ℤ) (cur : Text)
        → Keeps Same (stmt (insert_payment (new_payment env draw tid key amount cur)))
    unfolding insert_payment
    insert_payment-Same env draw key amount cur = unseen _ λ db. ground arith

    insert_refund-Same :
        (env : Env) (draw : Draw) (pid : ℕ) (key : Text) (amt : ℤ) (cur : Text)
        → Keeps Same (stmt (insert_refund (new_refund env draw tid pid key amt cur)))
    unfolding insert_refund
    insert_refund-Same env draw pid key amt cur = unseen _ λ db. ground arith

    insert_tenant-Same : (text : Text) → Keeps Same (stmt (insert_tenant tid text))
    unfolding insert_tenant
    insert_tenant-Same text = unseen _ λ db. ground arith

    insert_key-Same :
        (env : Env) (draw : Draw) (kid : ℕ) (raw : Text)
        → Keeps Same (stmt (insert_key (new_key env draw kid tid raw)))
    unfolding insert_key
    insert_key-Same env draw kid raw = unseen _ λ db. ground arith

    revoke-Same : (now kid : ℕ) → Keeps Same (stmt (revoke now tid kid))
    unfolding revoke
    revoke-Same now kid = unseen _ λ db.
        ap (λ ks. record (rows_of v db) { api_keys = ks })
          (select-update_where (λ k. k.tenant_id == v) (to_revoke tid kid) (revoked now) db.api_keys
            (λ k hit. ground arith) (λ k hit. ground arith))

    accept_or_replay_payment-Same :
        (env : Env) (draw : Draw) (key : Text) (amount : ℤ) (cur : Text) (p : Option Payment)
        → Keeps Same (Payment.accept_or_replay env draw tid key amount cur p)
    unfolding Payment.accept_or_replay Payment.replay Payment.accept
    accept_or_replay_payment-Same env draw key amount cur none = search keep_rules depth 12
    accept_or_replay_payment-Same env draw key amount cur (some p) =
        search (keep_rules, append-Same, write-Same, payment_outbox-Same) depth 12

    pub create_payment-Same :
        (env : Env) (draw : Draw) (key : Text) (amount : ℤ) (cur : Text)
        → Keeps Same (Payment.create_tx env draw tid key amount cur)
    unfolding Payment.create_tx
    create_payment-Same env draw key amount cur =
        search (keep_rules, insert_payment-Same, accept_or_replay_payment-Same) depth 8

    accept_or_replay_refund-Same :
        (env : Env) (draw : Draw) (pid : ℕ) (key : Text) (amt : ℤ) (cur : Text) (r : Option Refund)
        → Keeps Same (Refund.accept_or_replay env draw tid pid key amt cur r)
    unfolding Refund.accept_or_replay Refund.replay Refund.accept
    accept_or_replay_refund-Same env draw pid key amt cur none = search keep_rules depth 12
    accept_or_replay_refund-Same env draw pid key amt cur (some r) =
        search (keep_rules, append-Same, write-Same, refund_outbox-Same) depth 12

    insert_tx-Same :
        (env : Env) (draw : Draw) (pid : ℕ) (key : Text) (amt : ℤ) (cur : Text)
        → Keeps Same (insert_tx env draw tid pid key amt cur)
    unfolding insert_tx
    insert_tx-Same env draw pid key amt cur =
        search (keep_rules, insert_refund-Same, accept_or_replay_refund-Same) depth 8

    pub create_refund-Same :
        (env : Env) (draw : Draw) (pid : ℕ) (key : Text) (amount : ℤ)
        → Keeps Same (Refund.create_tx env draw tid pid key amount)
    unfolding Refund.create_tx
    create_refund-Same env draw pid key amount =
        search (keep_rules, check_tx-Same, insert_tx-Same) depth 12

    pub revoke_tx-Same : (env : Env) (now kid : ℕ) → Keeps Same (revoke_tx env now tid kid)
    unfolding revoke_tx
    revoke_tx-Same env now kid = search (keep_rules, revoke-Same, write-Same) depth 10

  -- Where the rest keeps the rows for what the first part can return.
  bind_returned-Same :
      {A B : Type 0} (m : Tx A) (f : A → Tx B)
      → Keeps Same m
      → ((a : A) → FaultSafe (f a))
      → ((db : Db) (a : A) (db' : Db) → clean m db ≡ (ok a, db') → Keeps Same (f a))
      → Keeps Same (m >>= f)
  bind_returned-Same m f hm safe hf = record {
    safe = bind-FaultSafe m f hm.safe safe;
    keeps = λ db b db' run before.
        let (a, mid, first, second) = bind-ok m f db b db' hm.safe run in
        (hf db a mid first).keeps mid b db' second (hm.keeps db a mid first before);
  }

  pub create_tenant_tx-Same :
      (env : Env) (draw : Draw) (kid : ℕ) (bytes : Option (List ℕ)) (text : Text)
      → draw.row_id ≢ v
      → Keeps Same (create_tenant_tx env draw kid bytes text)
  unfolding create_tenant_tx insert_tenant stmt
  create_tenant_tx-Same env draw kid bytes text other =
      bind_returned-Same _ _ (insert_tenant-Same draw.row_id other (trim_space text))
        (λ tid. search (safe_rules, from_result-FaultSafe, write-FaultSafe) depth 14)
        λ db tid mid run.
          let e : draw.row_id ≡ tid = ground arith in
          let differs : tid ≢ v = subst (λ t. t ≢ v) e other in
          search (keep_rules, from_result-Same, insert_key-Same, write-Same) depth 14
