-- ===== src/Tenants/Safety.antt =====
-- payflow-app/internal/tenant: failures of the database during CreateTenantWithAPIKey and
-- RevokeAPIKey.
use payflow_payments_ops_pla.Base.{ℕ, Bool, Option, List, not}
use payflow_payments_ops_pla.Text.{Text}
use payflow_payments_ops_pla.Store.{Db, Env, Draw, Result, ok, err, transact, invalid_name}
use payflow_payments_ops_pla.Store.Faults.{FaultSafe, safe_rules, clean, at}
use payflow_payments_ops_pla.Store.Atomic.{Atomic, transact-clean-Atomic, raise_if-Atomic}
use payflow_payments_ops_pla.Audit.{write-FaultSafe}
use payflow_payments_ops_pla.Tenants.{
  is_valid_name, from_result, create_tenant_tx, create_tenant, revoke_tx,
}

pub from_result-FaultSafe : (r : Result Text) → FaultSafe (from_result r)
unfolding from_result
from_result-FaultSafe (ok raw) = search safe_rules
from_result-FaultSafe (err e) = search safe_rules

pub create_tenant_tx-FaultSafe :
    (env : Env) (draw : Draw) (kid : ℕ) (bytes : Option (List ℕ)) (text : Text)
    → FaultSafe (create_tenant_tx env draw kid bytes text)
unfolding create_tenant_tx
create_tenant_tx-FaultSafe env draw kid bytes text =
    search (safe_rules, from_result-FaultSafe, write-FaultSafe) depth 14

pub revoke_tx-FaultSafe : (env : Env) (now tid kid : ℕ) → FaultSafe (revoke_tx env now tid kid)
unfolding revoke_tx
revoke_tx-FaultSafe env now tid kid = search (safe_rules, write-FaultSafe) depth 10

-- The run of CreateTenantWithAPIKey with failures against the one without.
pub create_tenant-Atomic :
    (env : Env) (draw : Draw) (kid : ℕ) (bytes : Option (List ℕ)) (text : Text) (db : Db)
    (fs : List Bool)
    → Atomic db
        (clean (create_tenant env draw kid bytes text) db)
        (create_tenant env draw kid bytes text (at db fs))
unfolding create_tenant
create_tenant-Atomic env draw kid bytes text db fs =
    raise_if-Atomic (not (is_valid_name text)) invalid_name
      (transact (create_tenant_tx env draw kid bytes text)) db fs
      (transact-clean-Atomic _ (create_tenant_tx-FaultSafe env draw kid bytes text) db fs)
