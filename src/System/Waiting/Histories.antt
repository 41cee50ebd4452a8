-- ===== src/System/Waiting/Histories.antt =====
-- The rows of the outbox for what waits to be settled, over every history of the two programs.
use payflow_payments_ops_pla.Base.{ℕ, ◌≡◌, sym, subst, inl, inr, Bool, false, some, any, arith}
use payflow_payments_ops_pla.Store.{Db, Env, ok}
use payflow_payments_ops_pla.Store.Faults.{clean}
use payflow_payments_ops_pla.Refund.Bound.{RefundsCovered}
use payflow_payments_ops_pla.System.Kept.{Kept, Reach-Kept}
use payflow_payments_ops_pla.Worker.{Followup, outbox_tx}
use payflow_payments_ops_pla.Worker.Rows.{oldest-find}
use payflow_payments_ops_pla.Worker.Asks.{outbox_tx-cases}
use payflow_payments_ops_pla.System.{Reach, empty_db}
use payflow_payments_ops_pla.System.Refunds.{Step-Covered, empty_db-Covered}
use payflow_payments_ops_pla.System.Waiting.{Complete, OutboxComplete}
use payflow_payments_ops_pla.System.Waiting.Stranded.{
  is_stranded_payment, is_stranded_refund, none_stranded,
}
use payflow_payments_ops_pla.System.Waiting.Steps.{
  settled_payment-Complete, settled_refund-Complete, create_payment_tx-Complete,
  create_refund_tx-Complete, mark_processed-Complete,
}

module _ (env : Env) (parses : (id : ℕ) → env.uuid_parse (env.uuid_string id) ≡ some id) where
  drained-Complete :
      (locked : ℕ → Bool) (now : ℕ) (db db' : Db) (x : Followup × Bool)
      → clean (outbox_tx env locked now) db ≡ (ok x, db')
      → RefundsCovered db
      → OutboxComplete env db
      → OutboxComplete env db'
  drained-Complete locked now db db' x run covered before =
      elim (outbox_tx-cases env parses now db locked x db' run) [
        | inl same ↦ subst (OutboxComplete env) (sym same) before
        | inr (row, mid, first, handled, marked) ↦ subst (OutboxComplete env) (sym marked) (
            mark_processed-Complete env now db mid row
              (oldest-find locked row db.async_outbox before.distinct first) handled covered before)
      ]

  OutboxComplete-Kept : Kept env RefundsCovered (OutboxComplete env)
  OutboxComplete-Kept = record {
    pays = λ draw tid key amount cur db db' x small run covered before.
        create_payment_tx-Complete env draw tid key amount cur db db' x run before;
    refunds = λ draw tid pid key amount db db' x run covered before.
        create_refund_tx-Complete env draw tid pid key amount db db' x run before;
    settles_payment =
        λ now pid db db' run covered before. settled_payment-Complete env now pid db db' run before;
    settles_refund = λ now rid db db' run covered before.
        settled_refund-Complete env now rid db db' run covered before;
    drains = drained-Complete;
    besides = λ db db' same before.
        subst (λ c. Complete env c.payments c.refunds c.async_outbox) (sym same) before;
  }

  empty_db-Complete : OutboxComplete env empty_db
  empty_db-Complete = record {
    payment_ids = tt;
    refund_ids = tt;
    distinct = tt;
    sound = tt;
    paid = tt;
    payments = λ pid p found waiting. absurd (ground arith);
    refunds = λ rid r found waiting. absurd (ground arith);
  }

  pub Reach-Complete : {db : Db} → Reach env empty_db db → OutboxComplete env db
  Reach-Complete r =
      (Reach-Kept OutboxComplete-Kept (λ db db' s covered. Step-Covered s covered) empty_db-Covered
        empty_db-Complete r).1

-- After any history of creates below 2 ^ 62 cents, refunds, settlements, outbox rounds and transactions
-- on the other tables, with any failures of the database, no payment and no refund is pending unless a
-- row of the outbox is open and asks for its settlement. A UUID parses back from its text.
pub pending-asked :
    (env : Env) (db : Db)
    → ((id : ℕ) → env.uuid_parse (env.uuid_string id) ≡ some id)
    → Reach env empty_db db
    → (any (is_stranded_payment env db.async_outbox) db.payments ≡ false)
      × (any (is_stranded_refund env db.async_outbox) db.refunds ≡ false)
pending-asked env db parses r =
    none_stranded env db.payments db.refunds db.async_outbox (Reach-Complete env parses r)
