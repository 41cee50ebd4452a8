-- ===== src/System/Entries.antt =====
-- Entries of the ledger, over every history of the two programs.
use payflow_payments_ops_pla.Base.{⊤, ℕ, ◌≤◌, sym, ap, subst, count_where, arith}
use payflow_payments_ops_pla.Text.{Text}
use payflow_payments_ops_pla.Store.{Db, Env}
use payflow_payments_ops_pla.Ledger.{same_entry}
use payflow_payments_ops_pla.Ledger.Unique.{Unique, LedgerUnique}
use payflow_payments_ops_pla.Payment.Entries as PaymentEntries
use payflow_payments_ops_pla.Refund.Entries as RefundEntries
use payflow_payments_ops_pla.System.Kept.{Kept, Reach-Kept}
use payflow_payments_ops_pla.Worker.Keeps.{outbox_tx-Keeps}
use payflow_payments_ops_pla.System.{Reach, empty_db}

LedgerUnique-Kept : (env : Env) → Kept env (λ db. ⊤) LedgerUnique
LedgerUnique-Kept env = record {
  pays = λ draw tid key amount cur db db' x small run known before.
      (PaymentEntries.create_tx-Unique env draw tid key amount cur).keeps db x db' run before;
  refunds = λ draw tid pid key amount db db' x run known before.
      (RefundEntries.create_tx-Unique env draw tid pid key amount).keeps db x db' run before;
  settles_payment = λ now pid db db' run known before.
      (PaymentEntries.settle_mock_tx-Unique now pid).keeps db tt db' run before;
  settles_refund = λ now rid db db' run known before.
      (RefundEntries.settle_mock_tx-Unique env now rid).keeps db tt db' run before;
  drains = λ locked now db db' x run known before.
      (outbox_tx-Keeps LedgerUnique env now (PaymentEntries.settle_mock_tx-Unique now)
          (RefundEntries.settle_mock_tx-Unique env now) (λ id db h. h) locked).keeps
        db x db' run before;
  besides = λ db db' same before. subst Unique (sym (ap (λ c. c.ledger_events) same)) before;
}

-- After any history of creates below 2 ^ 62 cents, refunds, settlements, outbox rounds and transactions
-- on the other tables, with any failures of the database, the ledger has at most one entry for a payment and a dedupe key.
pub ledger_unique :
    (env : Env) (db : Db) (pid : ℕ) (key : Text)
    → Reach env empty_db db
    → count_where (same_entry pid key) db.ledger_events ≤ 1
ledger_unique env db pid key r =
    (Reach-Kept (LedgerUnique-Kept env) (λ db db' s known. tt) tt (λ pid key. omega arith) r).1 pid
      key
