-- ===== src/Outbox.antt =====
-- payflow-app/internal/outbox/outbox.go: the transactional outbox.
use payflow_payments_ops_pla.Base.{ℕ, none, [], ◌∷◌, ⊤, any, ◌==◌, if◌then◌else◌}
use payflow_payments_ops_pla.Store.{
  Db, Env, Draw, OutboxKind, payment_settlement, refund_settlement, Object, payment_id, refund_id,
  str, Result, ok, err, db_error, Tx, stmt, OutboxRow,
}
use payflow_payments_ops_pla.Store.Faults.{FaultSafe, stmt-FaultSafe}

-- INSERT INTO async_outbox; a primary key that is taken is an error.
insert_row : Draw → OutboxKind → Object → Db → Result ⊤ × Db
insert_row draw kind payload db =
    let row : OutboxRow = record {
      id = draw.outbox_id;
      kind = kind;
      payload = payload;
      created_at = draw.now;
      processed_at = none;
    } in
    if any (λ r. r.id == draw.outbox_id) db.async_outbox
    then (err db_error, db)
    else (ok tt, record db { async_outbox = row ∷ db.async_outbox })

unfoldable pub insert_payment_settlement : Env → Draw → ℕ → Tx ⊤
unfolding insert_row
insert_payment_settlement env draw pid =
    stmt (insert_row draw payment_settlement ((payment_id, str (env.uuid_string pid)) ∷ []))

unfoldable pub insert_refund_settlement : Env → Draw → ℕ → Tx ⊤
unfolding insert_row
insert_refund_settlement env draw rid =
    stmt (insert_row draw refund_settlement ((refund_id, str (env.uuid_string rid)) ∷ []))

pub insert_payment_settlement-FaultSafe :
    (env : Env) (draw : Draw) (pid : ℕ) → FaultSafe (insert_payment_settlement env draw pid)
unfolding insert_payment_settlement
insert_payment_settlement-FaultSafe env draw pid = search stmt-FaultSafe

pub insert_refund_settlement-FaultSafe :
    (env : Env) (draw : Draw) (rid : ℕ) → FaultSafe (insert_refund_settlement env draw rid)
unfolding insert_refund_settlement
insert_refund_settlement-FaultSafe env draw rid = search stmt-FaultSafe
