-- ===== src/Refund/Entries.antt =====
-- payflow-app/internal/refund/refund.go appends to the ledger at most once.
use payflow_payments_ops_pla.Base.{ℕ, Option, none, some, ℤ, arith}
use payflow_payments_ops_pla.Text.{Text}
use payflow_payments_ops_pla.Store.{Env, Draw, Payment, Refund, stmt, exec}
use payflow_payments_ops_pla.Store.Keeps.{Keeps, keep_rules, exec-Keeps}
use payflow_payments_ops_pla.Ledger.Unique.{
  LedgerUnique, append-Unique, apart, write-Unique, refund_outbox-Unique,
}
use payflow_payments_ops_pla.Refund.{
  sum_reserved, insert_refund, replay, accept, accept_or_replay, insert_tx, check_tx, create_tx,
  mark_refunded, settle_row, settle_mock_tx,
}

insert_refund-Unique : (r : Refund) → Keeps LedgerUnique (stmt (insert_refund r))
unfolding insert_refund
insert_refund-Unique r = apart _ λ db a db' run. ground arith

sum_reserved-Unique : (pid : ℕ) → Keeps LedgerUnique (stmt (sum_reserved pid))
unfolding sum_reserved
sum_reserved-Unique pid = apart _ λ db a db' run. ground arith

accept_or_replay-Unique :
    (env : Env) (draw : Draw) (tid pid : ℕ) (key : Text) (amt : ℤ) (cur : Text) (r : Option Refund)
    → Keeps LedgerUnique (accept_or_replay env draw tid pid key amt cur r)
unfolding accept_or_replay replay accept
accept_or_replay-Unique env draw tid pid key amt cur none = search keep_rules depth 12
accept_or_replay-Unique env draw tid pid key amt cur (some r) =
    search (keep_rules, append-Unique, write-Unique, refund_outbox-Unique) depth 12

insert_tx-Unique :
    (env : Env) (draw : Draw) (tid pid : ℕ) (key : Text) (amt : ℤ) (cur : Text)
    → Keeps LedgerUnique (insert_tx env draw tid pid key amt cur)
unfolding insert_tx
insert_tx-Unique env draw tid pid key amt cur =
    search (keep_rules, insert_refund-Unique, accept_or_replay-Unique) depth 8

check_tx-Unique :
    (tid pid : ℕ) (amount : ℤ) (p : Payment) → Keeps LedgerUnique (check_tx tid pid amount p)
unfolding check_tx
check_tx-Unique tid pid amount p = search (keep_rules, sum_reserved-Unique) depth 14

pub create_tx-Unique :
    (env : Env) (draw : Draw) (tid pid : ℕ) (key : Text) (amount : ℤ)
    → Keeps LedgerUnique (create_tx env draw tid pid key amount)
unfolding create_tx
create_tx-Unique env draw tid pid key amount =
    search (keep_rules, check_tx-Unique, insert_tx-Unique) depth 12

mark_refunded-Unique : (now rid : ℕ) → Keeps LedgerUnique (exec (mark_refunded now rid))
mark_refunded-Unique now rid = exec-Keeps LedgerUnique _ λ db before. before

settle_row-Unique :
    (env : Env) (now rid : ℕ) (row : Option (Refund × Payment))
    → Keeps LedgerUnique (settle_row env now rid row)
unfolding settle_row
settle_row-Unique env now rid none = search keep_rules
settle_row-Unique env now rid (some (r, p)) =
    search (keep_rules, append-Unique, mark_refunded-Unique) depth 9

pub settle_mock_tx-Unique :
    (env : Env) (now rid : ℕ) → Keeps LedgerUnique (settle_mock_tx env now rid)
unfolding settle_mock_tx
settle_mock_tx-Unique env now rid = search (keep_rules, settle_row-Unique) depth 8
