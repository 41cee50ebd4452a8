-- ===== src/Refund/Overflow.antt =====
-- The int64 sum of Create in payflow-app/internal/refund/refund.go, for very large payments.
use payflow_payments_ops_pla.Base.{
  ℕ, ◌<◌, ◌≤◌, ◌^◌, ◌≡◌, true, false, pos, add64, wrap64, ltb_ℤ, arith,
}
use payflow_payments_ops_pla.Store.{Db, Payment, is_succeeded, ok, stmt}
use payflow_payments_ops_pla.Store.Faults.{clean}
use payflow_payments_ops_pla.Refund.{reserved, sum_reserved, check_tx}

twice-negative : (a : ℕ) → 2 ^ 62 ≤ a → a < 2 ^ 63 → ltb_ℤ (pos a) (add64 (pos a) (pos a)) ≡ false
unfolding add64 wrap64
twice-negative a large small = ground arith

-- A succeeded payment of 2 ^ 62 cents or more, refunded in full already, passes every check of
-- Create for another refund in full: the sum of what is reserved and what is asked wraps below 0.
pub check_tx-wraps :
    (tid pid : ℕ) (p : Payment) (db : Db)
    → p.tenant_id ≡ tid
    → is_succeeded p.status ≡ true
    → 2 ^ 62 ≤ p.amount_cents
    → p.amount_cents < 2 ^ 63
    → reserved pid db ≡ p.amount_cents
    → clean (check_tx tid pid (pos 0) p) db ≡ (ok tt, db)
unfolding check_tx sum_reserved stmt
check_tx-wraps tid pid p db owner done large small full =
    ground (arith, full, twice-negative p.amount_cents large small)
