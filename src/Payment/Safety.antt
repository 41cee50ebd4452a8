-- ===== src/Payment/Safety.antt =====
-- payflow-app/internal/payment: failures of the database during Create and SettleMock.
use payflow_payments_ops_pla.Base.{ℕ, ℤ, Bool, Option, none, some, List, not}
use payflow_payments_ops_pla.Text.{Text}
use payflow_payments_ops_pla.Store.{Db, Env, Draw, Payment, transact, invalid_input}
use payflow_payments_ops_pla.Store.Faults.{FaultSafe, safe_rules, clean, at}
use payflow_payments_ops_pla.Store.Atomic.{Atomic, transact-clean-Atomic, raise_if-Atomic}
use payflow_payments_ops_pla.Payment.{
  is_valid_create, normalize, accept_or_replay, replay, accept, create_tx, create, settle_row,
  settle_mock_tx,
}
use payflow_payments_ops_pla.Ledger.{append-FaultSafe}
use payflow_payments_ops_pla.Audit.{write-FaultSafe}
use payflow_payments_ops_pla.Outbox.{insert_payment_settlement-FaultSafe}

accept_or_replay-FaultSafe :
    (env : Env) (draw : Draw) (tid : ℕ) (key : Text) (amount : ℤ) (cur : Text) (p : Option Payment)
    → FaultSafe (accept_or_replay env draw tid key amount cur p)
unfolding accept_or_replay replay accept
accept_or_replay-FaultSafe env draw tid key amount cur none = search safe_rules depth 12
accept_or_replay-FaultSafe env draw tid key amount cur (some p) =
    search (safe_rules, append-FaultSafe, write-FaultSafe, insert_payment_settlement-FaultSafe)
      depth 12

pub create_tx-FaultSafe :
    (env : Env) (draw : Draw) (tid : ℕ) (key : Text) (amount : ℤ) (cur : Text)
    → FaultSafe (create_tx env draw tid key amount cur)
unfolding create_tx
create_tx-FaultSafe env draw tid key amount cur =
    search (safe_rules, accept_or_replay-FaultSafe) depth 8

settle_row-FaultSafe : (now pid : ℕ) (row : Option Payment) → FaultSafe (settle_row now pid row)
unfolding settle_row
settle_row-FaultSafe now pid none = search safe_rules
settle_row-FaultSafe now pid (some p) = search (safe_rules, append-FaultSafe) depth 8

pub settle_mock_tx-FaultSafe : (now pid : ℕ) → FaultSafe (settle_mock_tx now pid)
unfolding settle_mock_tx
settle_mock_tx-FaultSafe now pid = search (safe_rules, settle_row-FaultSafe) depth 8

-- The run of Create with failures against the one without.
pub create_payment-Atomic :
    (env : Env) (draw : Draw) (tid : ℕ) (key : Text) (amount : ℤ) (raw : Text) (db : Db)
    (fs : List Bool)
    → Atomic db
        (clean (create env draw tid key amount raw) db)
        (create env draw tid key amount raw (at db fs))
unfolding create
create_payment-Atomic env draw tid key amount raw db fs =
    raise_if-Atomic (not (is_valid_create amount raw key)) invalid_input
      (transact (create_tx env draw tid key amount (normalize env raw))) db fs
      (transact-clean-Atomic _ (create_tx-FaultSafe env draw tid key amount (normalize env raw)) db
        fs)
