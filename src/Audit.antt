-- ===== src/Audit.antt =====
-- payflow-app/internal/audit/audit.go: audit rows, in the transaction of what they record.
use payflow_payments_ops_pla.Base.{ℕ, Option, ◌∷◌, ⊤}
use payflow_payments_ops_pla.Store.{AuditType, Object, Tx, exec}
use payflow_payments_ops_pla.Store.Faults.{FaultSafe, stmt-FaultSafe}

-- Write. A nil metadata map is written as the empty object by the caller's literal.
unfoldable pub write : Option ℕ → AuditType → Object → Tx ⊤
write tenant_id event_type metadata = exec λ db. record db {
  audit_events =
      record { tenant_id = tenant_id; event_type = event_type; metadata = metadata }
      ∷ db.audit_events;
}

pub write-FaultSafe :
    (tenant_id : Option ℕ) (event_type : AuditType) (metadata : Object)
    → FaultSafe (write tenant_id event_type metadata)
unfolding write
write-FaultSafe tenant_id event_type metadata = search stmt-FaultSafe
