-- ===== src/Refund/Books.antt =====
-- payflow-app/internal/refund/refund.go: what Create and SettleMockTx enter in the ledger.
use payflow_payments_ops_pla.Base.{
  ⊤, ℕ, ◌≡◌, inl, inr, ◌⊎◌, Bool, Bool-cases, Option-cases, ℤ, none, some, ◌∷◌, [], find,
  find-any-false, arith, subst, sym,
}
use payflow_payments_ops_pla.Text.{Text}
use payflow_payments_ops_pla.Store.{
  Db, Env, Draw, Payment, Refund, LedgerType, Object, refund_id, amount_cents, currency, num, str,
  is_pending, ok, stmt,
}
use payflow_payments_ops_pla.Store.Faults.{clean}
use payflow_payments_ops_pla.Ledger.{append, insert_event, requested_key, refunded_key}
use payflow_payments_ops_pla.Ledger.Appended.{Appended, insert_event-Appended}
use payflow_payments_ops_pla.Audit.{write}
use payflow_payments_ops_pla.Outbox.{insert_refund_settlement}
use payflow_payments_ops_pla.Payment.{has_id}
use payflow_payments_ops_pla.Refund.{
  same_key, has_refund_id, joined, insert_refund, replay, accept, insert_tx, settle_mock_tx,
}

pub insert_tx-Appended :
    (env : Env) (draw : Draw) (tid pid : ℕ) (key : Text) (amt : ℤ) (cur : Text) (db db' : Db)
    (x : Refund × Bool)
    → find (same_key tid key) db.refunds ≡ none
    → clean (insert_tx env draw tid pid key amt cur) db ≡ (ok x, db')
    → Appended pid (requested_key env draw.row_id) db.ledger_events db'.ledger_events
unfolding insert_tx insert_refund accept replay stmt append insert_event write
    insert_refund_settlement
insert_tx-Appended env draw tid pid key amt cur db db' x none_there run =
    let payload : Object =
      (refund_id, str (env.uuid_string draw.row_id))
      ∷ (amount_cents, num amt)
      ∷ (currency, str cur)
      ∷ [] in
    let entry = requested_key env draw.row_id in
    let same : db'.ledger_events
        ≡ (insert_event draw.now tid pid entry LedgerType.refund_requested payload
            db).1.ledger_events =
      ground (arith, find-any-false (same_key tid key) db.refunds) in
    subst (Appended pid entry db.ledger_events) (sym same)
      (insert_event-Appended draw.now tid pid entry LedgerType.refund_requested payload db)

-- The settlement enters nothing, or enters itself for the payment of the refund.
pub settle_mock_tx-books :
    (env : Env) (now rid : ℕ) (db db' : Db) (u : ⊤)
    → clean (settle_mock_tx env now rid) db ≡ (ok u, db')
    → (db'.ledger_events ≡ db.ledger_events)
      ⊎ ((pid : ℕ) × (p : Payment) × (find (has_id pid) db.payments ≡ some p)
          × Appended pid (refunded_key env rid) db.ledger_events db'.ledger_events)
unfolding settle_mock_tx joined append insert_event stmt
settle_mock_tx-books env now rid db db' u run =
    elim (Option-cases (find (has_refund_id rid) db.refunds)) [
      | inl missing ↦ inl (ground arith)
      | inr (r, there) ↦ elim (Option-cases (find (has_id r.payment_id) db.payments)) [
        | inl unpaid ↦ inl (ground arith)
        | inr (p, found) ↦ elim (Bool-cases (is_pending r.status)) [
          | inr done ↦ inl (ground arith)
          | inl waiting ↦
              let payload : Object = (refund_id, str (env.uuid_string rid)) ∷ [] in
              let entry = refunded_key env rid in
              let same : db'.ledger_events
                  ≡ (insert_event now r.tenant_id r.payment_id entry LedgerType.refund_succeeded
                      payload db).1.ledger_events =
                ground arith in
              inr (
                r.payment_id,
                p,
                found,
                subst (Appended r.payment_id entry db.ledger_events) (sym same) (
                    insert_event-Appended now r.tenant_id r.payment_id entry
                      LedgerType.refund_succeeded payload db),
              )
        ]
      ]
    ]
