-- ===== src/System/Kept.antt =====
-- What an invariant of the two programs needs of their transactions: each is met at its run without
-- failures.
use payflow_payments_ops_pla.Base.{ℕ, ℤ, ◌≡◌, ◌<◌, ◌^◌, pos_part, sym, subst, Bool}
use payflow_payments_ops_pla.Text.{Text}
use payflow_payments_ops_pla.Store.{Db, Env, Draw, Payment, Refund, invalid_input, ok}
use payflow_payments_ops_pla.Store.Faults.{clean}
use payflow_payments_ops_pla.Store.Keeps.{transact-from, transact_if-from, raise_if-transact_from}
use payflow_payments_ops_pla.Payment
use payflow_payments_ops_pla.Payment.Safety as PaymentSafety
use payflow_payments_ops_pla.Refund
use payflow_payments_ops_pla.Refund.Safety as RefundSafety
use payflow_payments_ops_pla.Worker.{Followup, outbox_tx}
use payflow_payments_ops_pla.Worker
use payflow_payments_ops_pla.Worker.Settle.{outbox_tx-FaultSafe}
use payflow_payments_ops_pla.System.{
  Step, create_payment, create_refund, settle_payment, settle_refund, process_outbox, beside, Reach,
  here, next, core,
}

-- `P` is kept where `Q`, an invariant that is known already, holds before.
pub record Kept (env : Env) (Q P : Db → Type 0) : Type 0 where
  pub pays :
      (draw : Draw) (tid : ℕ) (key : Text) (amount : ℤ) (cur : Text) (db db' : Db)
      (x : Payment × Bool)
      → pos_part amount < 2 ^ 62
      → clean (Payment.create_tx env draw tid key amount cur) db ≡ (ok x, db')
      → Q db
      → P db
      → P db'
  pub refunds :
      (draw : Draw) (tid pid : ℕ) (key : Text) (amount : ℤ) (db db' : Db) (x : Refund × Bool)
      → clean (Refund.create_tx env draw tid pid key amount) db ≡ (ok x, db')
      → Q db
      → P db
      → P db'
  pub settles_payment :
      (now pid : ℕ) (db db' : Db)
      → clean (Payment.settle_mock_tx now pid) db ≡ (ok tt, db')
      → Q db
      → P db
      → P db'
  pub settles_refund :
      (now rid : ℕ) (db db' : Db)
      → clean (Refund.settle_mock_tx env now rid) db ≡ (ok tt, db')
      → Q db
      → P db
      → P db'
  pub drains :
      (locked : ℕ → Bool) (now : ℕ) (db db' : Db) (x : Followup × Bool)
      → clean (outbox_tx env locked now) db ≡ (ok x, db')
      → Q db
      → P db
      → P db'
  pub besides : (db db' : Db) → core db' ≡ core db → P db → P db'

module _ {env : Env} {Q P : Db → Type 0} (kept : Kept env Q P) where
  pub Step-Kept : {db db' : Db} → Step env db db' → Q db → P db → P db'
  unfolding Payment.create Refund.create Payment.settle_mock Refund.settle_mock
      Worker.try_process_outbox
  Step-Kept {db} (create_payment draw tid key amount raw fs small e) known before =
      subst P (sym e) (
        raise_if-transact_from P _ invalid_input _
          (PaymentSafety.create_tx-FaultSafe env draw tid key amount (Payment.normalize env raw)) db
          fs before
          λ x db' run.
            kept.pays draw tid key amount (Payment.normalize env raw) db db' x small run known
              before)
  Step-Kept {db} (create_refund draw tid pid key amount fs e) known before = subst P (sym e) (
      raise_if-transact_from P _ invalid_input _
        (RefundSafety.create_tx-FaultSafe env draw tid pid key amount) db fs before
        λ x db' run. kept.refunds draw tid pid key amount db db' x run known before)
  Step-Kept {db} (settle_payment now pid fs e) known before = subst P (sym e) (
      transact-from P _ (PaymentSafety.settle_mock_tx-FaultSafe now pid) db fs before
        λ u db' run. kept.settles_payment now pid db db' run known before)
  Step-Kept {db} (settle_refund now rid fs e) known before = subst P (sym e) (
      transact-from P _ (RefundSafety.settle_mock_tx-FaultSafe env now rid) db fs before
        λ u db' run. kept.settles_refund now rid db db' run known before)
  Step-Kept {db} (process_outbox locked now fs e) known before = subst P (sym e) (
      transact_if-from P _ (outbox_tx-FaultSafe env locked now) db fs before
        λ x db' run. kept.drains locked now db db' x run known before)
  Step-Kept {db} {db'} (beside same) known before = kept.besides db db' same before

  pub Reach-Kept :
      ((db db' : Db) → Step env db db' → Q db → Q db')
      → {start db : Db} → Q start
      → P start
      → Reach env start db
      → Q db × P db
  Reach-Kept goes_on known before here = (known, before)
  Reach-Kept goes_on known before (next {mid} {after} r s) =
      let held = Reach-Kept goes_on known before r in
      (goes_on mid after s held.0, Step-Kept s held.0 held.1)
