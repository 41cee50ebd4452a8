-- ===== src/Refund/Safety.antt =====
-- payflow-app/internal/refund/refund.go: failures of the database during Create and SettleMock.
use payflow_payments_ops_pla.Base.{ℕ, ℤ, Option, none, some, List, Bool, ◌||◌, ltb}
use payflow_payments_ops_pla.Text.{Text, is_empty, trim_space, byte_len}
use payflow_payments_ops_pla.Store.{Db, Env, Draw, Payment, Refund, transact, invalid_input}
use payflow_payments_ops_pla.Store.Faults.{FaultSafe, safe_rules, clean, at}
use payflow_payments_ops_pla.Store.Atomic.{Atomic, transact-clean-Atomic, raise_if-Atomic}
use payflow_payments_ops_pla.Refund.{
  accept_or_replay, replay, accept, insert_tx, check_tx, create_tx, create, settle_row,
  settle_mock_tx,
}
use payflow_payments_ops_pla.Ledger.{append-FaultSafe}
use payflow_payments_ops_pla.Audit.{write-FaultSafe}
use payflow_payments_ops_pla.Outbox.{insert_refund_settlement-FaultSafe}

accept_or_replay-FaultSafe :
    (env : Env) (draw : Draw) (tid pid : ℕ) (key : Text) (amt : ℤ) (cur : Text) (r : Option Refund)
    → FaultSafe (accept_or_replay env draw tid pid key amt cur r)
unfolding accept_or_replay replay accept
accept_or_replay-FaultSafe env draw tid pid key amt cur none = search safe_rules depth 12
accept_or_replay-FaultSafe env draw tid pid key amt cur (some r) =
    search (safe_rules, append-FaultSafe, write-FaultSafe, insert_refund_settlement-FaultSafe) depth
      12

pub insert_tx-FaultSafe :
    (env : Env) (draw : Draw) (tid pid : ℕ) (key : Text) (amt : ℤ) (cur : Text)
    → FaultSafe (insert_tx env draw tid pid key amt cur)
unfolding insert_tx
insert_tx-FaultSafe env draw tid pid key amt cur =
    search (safe_rules, accept_or_replay-FaultSafe) depth 8

pub check_tx-FaultSafe :
    (tid pid : ℕ) (amount : ℤ) (p : Payment) → FaultSafe (check_tx tid pid amount p)
unfolding check_tx
check_tx-FaultSafe tid pid amount p = search safe_rules depth 14

pub create_tx-FaultSafe :
    (env : Env) (draw : Draw) (tid pid : ℕ) (key : Text) (amount : ℤ)
    → FaultSafe (create_tx env draw tid pid key amount)
unfolding create_tx
create_tx-FaultSafe env draw tid pid key amount =
    search (safe_rules, check_tx-FaultSafe, insert_tx-FaultSafe) depth 12

settle_row-FaultSafe :
    (env : Env) (now rid : ℕ) (row : Option (Refund × Payment))
    → FaultSafe (settle_row env now rid row)
unfolding settle_row
settle_row-FaultSafe env now rid none = search safe_rules
settle_row-FaultSafe env now rid (some (r, p)) = search (safe_rules, append-FaultSafe) depth 9

pub settle_mock_tx-FaultSafe : (env : Env) (now rid : ℕ) → FaultSafe (settle_mock_tx env now rid)
unfolding settle_mock_tx
settle_mock_tx-FaultSafe env now rid = search (safe_rules, settle_row-FaultSafe) depth 8

-- The run of Create with failures against the one without.
pub create_refund-Atomic :
    (env : Env) (draw : Draw) (tid pid : ℕ) (key : Text) (amount : ℤ) (db : Db) (fs : List Bool)
    → Atomic db
        (clean (create env draw tid pid key amount) db)
        (create env draw tid pid key amount (at db fs))
unfolding create
create_refund-Atomic env draw tid pid key amount db fs =
    raise_if-Atomic (is_empty (trim_space key) || ltb 200 (byte_len key)) invalid_input
      (transact (create_tx env draw tid pid key amount)) db fs
      (transact-clean-Atomic _ (create_tx-FaultSafe env draw tid pid key amount) db fs)
