-- ===== src/Http/Reads/Handlers.antt =====
-- The reads of payflow-app/internal/httpapi, over databases that differ in the rows of other tenants.
use payflow_payments_ops_pla.Base.{
  ℕ, ◌≡◌, refl, sym, ◌∙◌, ap, Bool, true, ◌==◌, ◌&&◌, some, List, select, find, map, take, reverse,
  sort_desc, arith,
}
use payflow_payments_ops_pla.Text.{Text}
use payflow_payments_ops_pla.Store.{Db}
use payflow_payments_ops_pla.Queue.{World}
use payflow_payments_ops_pla.Auth.{Context}
use payflow_payments_ops_pla.Ledger.{list_by_payment}
use payflow_payments_ops_pla.Payment
use payflow_payments_ops_pla.Refund
use payflow_payments_ops_pla.Tenants.{get_name, has_tenant_id, key_info, list_api_keys}
use payflow_payments_ops_pla.Webhook.Query.{
  listed, clamp_limit, list_row, list_deliveries, get_delivery,
}
use payflow_payments_ops_pla.Http.{HttpRequest, Response, Server, Api, reply_in, run}
use payflow_payments_ops_pla.Http.Accounts.{get_tenants_me, get_tenant_api_keys}
use payflow_payments_ops_pla.Http.Payments.{get_payment, get_refund}
use payflow_payments_ops_pla.Http.Deliveries.{list_webhook_deliveries, get_webhook_delivery}
use payflow_payments_ops_pla.Http.Isolation.{Rows, rows_of}
use payflow_payments_ops_pla.Http.Reads.{
  SameTx, SameApi, find-select, select-select, query-SameTx, pure-SameTx, or_raise-SameTx,
  bind-SameTx, tenant-SameApi, same_rules,
}

module _ {A : Type 0} (v : ℕ) (table : Db → List A) (part : Rows → List A) (q : A → Bool)
    (shape : (db : Db) → part (rows_of v db) ≡ select q (table db)) where
  found :
      (p : A → Bool)
      → ((x : A) → p x ≡ true → q x ≡ true)
      → (db db' : Db) → rows_of v db ≡ rows_of v db'
      → find p (table db) ≡ find p (table db')
  found p implies db db' e =
      sym (find-select q p (table db) implies)
      ∙ ap (find p) (sym (shape db) ∙ ap part e ∙ shape db')
      ∙ find-select q p (table db') implies

  selected :
      (p : A → Bool)
      → ((x : A) → p x ≡ true → q x ≡ true)
      → (db db' : Db) → rows_of v db ≡ rows_of v db'
      → select p (table db) ≡ select p (table db')
  selected p implies db db' e =
      sym (select-select q p (table db) implies)
      ∙ ap (select p) (sym (shape db) ∙ ap part e ∙ shape db')
      ∙ select-select q p (table db') implies

module _ (v : ℕ) where
  get_name-SameTx : SameTx v (get_name v)
  unfolding get_name
  get_name-SameTx =
      let row =
        query-SameTx v (λ db. find (has_tenant_id v) db.tenants)
          (found v (λ db. db.tenants) (λ r. r.tenant) (λ t. t.id == v) (λ db. refl) _ (λ t h. h)) in
      bind-SameTx v _ _ row λ o. bind-SameTx v _ _ (or_raise-SameTx v _ o) λ t. pure-SameTx v t.name

  get_payment-SameTx : (pid : ℕ) → SameTx v (Payment.get v pid)
  unfolding Payment.get
  get_payment-SameTx pid =
      let row =
        query-SameTx v (λ db. find (λ p. p.id == pid && p.tenant_id == v) db.payments)
          (found v (λ db. db.payments) (λ r. r.payments) (λ p. p.tenant_id == v) (λ db. refl) _
            (λ p h. ground arith)) in
      search (same_rules, row) depth 8

  get_refund-SameTx : (rid : ℕ) → SameTx v (Refund.get v rid)
  unfolding Refund.get
  get_refund-SameTx rid =
      let row =
        query-SameTx v (λ db. find (λ r. r.id == rid && r.tenant_id == v) db.refunds)
          (found v (λ db. db.refunds) (λ r. r.refunds) (λ r. r.tenant_id == v) (λ db. refl) _
            (λ r h. ground arith)) in
      search (same_rules, row) depth 8

  get_delivery-SameTx : (did : ℕ) → SameTx v (get_delivery v did)
  unfolding get_delivery
  get_delivery-SameTx did =
      let row =
        query-SameTx v (λ db. find (λ d. d.id == did && d.tenant_id == v) db.webhook_deliveries)
          (found v (λ db. db.webhook_deliveries) (λ r. r.webhook_deliveries) (λ d. d.tenant_id == v)
            (λ db. refl) _ (λ d h. ground arith)) in
      search (same_rules, row) depth 8

  list_by_payment-SameTx : (pid : ℕ) → SameTx v (list_by_payment v pid)
  unfolding list_by_payment
  list_by_payment-SameTx pid = query-SameTx v _ λ db db' e. ap reverse (
      selected v (λ db. db.ledger_events) (λ r. r.ledger_events) (λ x. x.tenant_id == v)
        (λ db. refl) _ (λ x h. ground arith) db db' e)

  list_api_keys-SameTx : SameTx v (list_api_keys v)
  unfolding list_api_keys
  list_api_keys-SameTx = query-SameTx v _ λ db db' e.
      ap (λ ks. map key_info (sort_desc (λ k. k.created_at) ks))
        (selected v (λ db. db.api_keys) (λ r. r.api_keys) (λ k. k.tenant_id == v) (λ db. refl) _
          (λ k h. h) db db' e)

  list_deliveries-SameTx : (status : Text) (limit : ℕ) → SameTx v (list_deliveries v status limit)
  unfolding list_deliveries
  list_deliveries-SameTx status limit = query-SameTx v _ λ db db' e.
      ap (λ ds. map list_row (take (clamp_limit limit) (sort_desc (λ d. d.created_at) ds)))
        (selected v (λ db. db.webhook_deliveries) (λ r. r.webhook_deliveries)
          (λ d. d.tenant_id == v) (λ db. refl) (listed v status) (λ d h. ground arith) db db' e)

-- The handlers of the GET routes that need a principal.
pub data Read : Type 0 where
  profile keys : Read
  payment refund delivery : Text → Read
  deliveries : HttpRequest → Read

abbrev pub read : Server → Context → Read → Api Response
read s ctx profile = get_tenants_me s ctx
read s ctx keys = get_tenant_api_keys s ctx
read s ctx (payment path) = get_payment s ctx path
read s ctx (refund path) = get_refund s ctx path
read s ctx (delivery path) = get_webhook_delivery s ctx path
read s ctx (deliveries r) = list_webhook_deliveries s ctx r

module _ (v : ℕ) (s : Server) (ctx : Context) (admitted : ctx.tenant_id ≡ some v) where
  read-SameApi : (what : Read) → SameApi v (read s ctx what)
  unfolding get_tenants_me get_tenant_api_keys get_payment get_refund get_webhook_delivery
      list_webhook_deliveries
  read-SameApi profile =
      tenant-SameApi v _ _ _ admitted (search (same_rules, get_name-SameTx) depth 10)
  read-SameApi keys =
      tenant-SameApi v _ _ _ admitted (search (same_rules, list_api_keys-SameTx) depth 10)
  read-SameApi (payment path) =
      tenant-SameApi v _ _ _ admitted
        (search (same_rules, get_payment-SameTx, list_by_payment-SameTx) depth 12)
  read-SameApi (refund path) =
      tenant-SameApi v _ _ _ admitted (search (same_rules, get_refund-SameTx) depth 10)
  read-SameApi (delivery path) =
      tenant-SameApi v _ _ _ admitted (search (same_rules, get_delivery-SameTx) depth 10)
  read-SameApi (deliveries r) =
      tenant-SameApi v _ _ _ admitted (search (same_rules, list_deliveries-SameTx) depth 10)

-- What a GET handler replies to a context of a tenant depends on the rows of this tenant only: over two
-- databases in which they are the same, and whose calls fail alike, the reply is the same, whatever
-- other tenants have.
pub read-rows_of :
    (v : ℕ) (s : Server) (ctx : Context) (what : Read) (w x : World)
    → ctx.tenant_id ≡ some v
    → w.store.faults ≡ x.store.faults
    → rows_of v w.store.db ≡ rows_of v x.store.db
    → (run (read s ctx what) w).0 ≡ (run (read s ctx what) x).0
read-rows_of v s ctx what w x admitted faults rows =
    ap reply_in
      ((read-SameApi v s ctx admitted what).same w x (record { faults = faults; rows = rows })).0
