-- ===== src/Payment/Entries.antt =====
-- payflow-app/internal/payment/payment.go appends to the ledger at most once.
use payflow_payments_ops_pla.Base.{ℕ, Option, none, some, ℤ, arith}
use payflow_payments_ops_pla.Text.{Text}
use payflow_payments_ops_pla.Store.{Env, Draw, Payment, stmt, exec}
use payflow_payments_ops_pla.Store.Keeps.{Keeps, keep_rules, exec-Keeps}
use payflow_payments_ops_pla.Ledger.Unique.{
  LedgerUnique, append-Unique, apart, write-Unique, payment_outbox-Unique,
}
use payflow_payments_ops_pla.Payment.{
  insert_payment, replay, accept, accept_or_replay, create_tx, mark_succeeded, settle_row,
  settle_mock_tx,
}

insert_payment-Unique : (p : Payment) → Keeps LedgerUnique (stmt (insert_payment p))
unfolding insert_payment
insert_payment-Unique p = apart _ λ db a db' run. ground arith

accept_or_replay-Unique :
    (env : Env) (draw : Draw) (tid : ℕ) (key : Text) (amount : ℤ) (cur : Text) (p : Option Payment)
    → Keeps LedgerUnique (accept_or_replay env draw tid key amount cur p)
unfolding accept_or_replay replay accept
accept_or_replay-Unique env draw tid key amount cur none = search keep_rules depth 12
accept_or_replay-Unique env draw tid key amount cur (some p) =
    search (keep_rules, append-Unique, write-Unique, payment_outbox-Unique) depth 12

pub create_tx-Unique :
    (env : Env) (draw : Draw) (tid : ℕ) (key : Text) (amount : ℤ) (cur : Text)
    → Keeps LedgerUnique (create_tx env draw tid key amount cur)
unfolding create_tx
create_tx-Unique env draw tid key amount cur =
    search (keep_rules, insert_payment-Unique, accept_or_replay-Unique) depth 8

mark_succeeded-Unique : (now pid : ℕ) → Keeps LedgerUnique (exec (mark_succeeded now pid))
mark_succeeded-Unique now pid = exec-Keeps LedgerUnique _ λ db before. before

settle_row-Unique :
    (now pid : ℕ) (row : Option Payment) → Keeps LedgerUnique (settle_row now pid row)
unfolding settle_row
settle_row-Unique now pid none = search keep_rules
settle_row-Unique now pid (some p) =
    search (keep_rules, append-Unique, mark_succeeded-Unique) depth 9

pub settle_mock_tx-Unique : (now pid : ℕ) → Keeps LedgerUnique (settle_mock_tx now pid)
unfolding settle_mock_tx
settle_mock_tx-Unique now pid = search (keep_rules, settle_row-Unique) depth 8
