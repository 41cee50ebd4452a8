-- ===== src/Worker/Keeps.antt =====
-- What the transaction of tryProcessOutbox keeps, from what the two settlements keep.
use payflow_payments_ops_pla.Base.{ℕ, Bool, Option, none, some, [], ◌∷◌}
use payflow_payments_ops_pla.Store.{
  Db, Env, exec, OutboxRow, OutboxKind, payment_settlement, refund_settlement, unknown_kind, Object,
  Field, Value, num, str, flag,
}
use payflow_payments_ops_pla.Store.Keeps.{Keeps, keep_rules, exec-Keeps}
use payflow_payments_ops_pla.Payment
use payflow_payments_ops_pla.Refund
use payflow_payments_ops_pla.Worker.{
  text_value, text_field, parse_id, handle, mark_processed, process_row, outbox_tx,
}

module _ (P : Db → Type 0) where
  text_value-Keeps : (v : Value) → Keeps P (text_value v)
  text_value-Keeps (num x) = search keep_rules
  text_value-Keeps (str t) = search keep_rules
  text_value-Keeps (flag b) = search keep_rules

  text_field-Keeps : (wanted : Field → Bool) (o : Object) → Keeps P (text_field wanted o)
  unfolding text_field
  text_field-Keeps wanted [] = search keep_rules
  text_field-Keeps wanted ((f, v) ∷ rest) =
      search (keep_rules, text_value-Keeps v, text_field-Keeps wanted rest)

  pub parse_id-Keeps :
      (env : Env) (wanted : Field → Bool) (o : Object) → Keeps P (parse_id env wanted o)
  unfolding parse_id
  parse_id-Keeps env wanted o = search (keep_rules, text_field-Keeps)

  module _ (env : Env) (now : ℕ) (payment : (pid : ℕ) → Keeps P (Payment.settle_mock_tx now pid))
      (refund : (rid : ℕ) → Keeps P (Refund.settle_mock_tx env now rid))
      (processed : (id : ℕ) (db : Db) → P db → P (mark_processed now id db)) where
    pub handle-Keeps : (kind : OutboxKind) (o : Object) → Keeps P (handle env now kind o)
    unfolding handle
    handle-Keeps payment_settlement o = search (keep_rules, parse_id-Keeps, payment) depth 9
    handle-Keeps refund_settlement o = search (keep_rules, parse_id-Keeps, refund) depth 9
    handle-Keeps unknown_kind o = search keep_rules

    mark-Keeps : (id : ℕ) → Keeps P (exec (mark_processed now id))
    mark-Keeps id = exec-Keeps P (mark_processed now id) (processed id)

    process_row-Keeps : (row : Option OutboxRow) → Keeps P (process_row env now row)
    unfolding process_row
    process_row-Keeps none = search keep_rules
    process_row-Keeps (some row) = search (keep_rules, handle-Keeps, mark-Keeps) depth 9

    pub outbox_tx-Keeps : (locked : ℕ → Bool) → Keeps P (outbox_tx env locked now)
    unfolding outbox_tx
    outbox_tx-Keeps locked = search (keep_rules, process_row-Keeps) depth 9
