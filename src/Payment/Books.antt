-- ===== src/Payment/Books.antt =====
-- payflow-app/internal/payment/payment.go: what Create and SettleMockTx enter in the ledger.
use payflow_payments_ops_pla.Base.{
  ⊤, ℕ, ◌≡◌, inl, inr, ◌⊎◌, Bool, true, false, Bool-cases, Option-cases, ℤ, none, some, ◌∷◌, [],
  find, find-any-false, arith, subst, sym,
}
use payflow_payments_ops_pla.Text.{Text}
use payflow_payments_ops_pla.Store.{
  Db, Env, Draw, Payment, is_succeeded, payment_accepted, settlement_completed, Object,
  amount_cents, currency, mock, num, str, flag, ok, stmt,
}
use payflow_payments_ops_pla.Store.Faults.{clean}
use payflow_payments_ops_pla.Ledger.{append, insert_event, accepted_key, settled_key}
use payflow_payments_ops_pla.Ledger.Appended.{Appended, insert_event-Appended}
use payflow_payments_ops_pla.Audit.{write}
use payflow_payments_ops_pla.Outbox.{insert_payment_settlement}
use payflow_payments_ops_pla.Payment.{
  has_id, same_key, mark_succeeded, insert_payment, replay, accept, create_tx, settle_mock_tx,
}

pub create_tx-Appended :
    (env : Env) (draw : Draw) (tid : ℕ) (key : Text) (amount : ℤ) (cur : Text) (db db' : Db)
    (x : Payment × Bool)
    → find (same_key tid key) db.payments ≡ none
    → clean (create_tx env draw tid key amount cur) db ≡ (ok x, db')
    → Appended draw.row_id accepted_key db.ledger_events db'.ledger_events
unfolding create_tx insert_payment accept replay stmt append insert_event write
    insert_payment_settlement
create_tx-Appended env draw tid key amount cur db db' x none_there run =
    let payload : Object = (amount_cents, num amount) ∷ (currency, str cur) ∷ [] in
    let same : db'.ledger_events
        ≡ (insert_event draw.now tid draw.row_id accepted_key payment_accepted payload
            db).1.ledger_events =
      ground (arith, find-any-false (same_key tid key) db.payments) in
    subst (Appended draw.row_id accepted_key db.ledger_events) (sym same)
      (insert_event-Appended draw.now tid draw.row_id accepted_key payment_accepted payload db)

-- The settlement enters nothing where it changes nothing; else it enters it and marks the payment.
pub settle_mock_tx-books :
    (now pid : ℕ) (db db' : Db) (u : ⊤)
    → clean (settle_mock_tx now pid) db ≡ (ok u, db')
    → ((db'.payments ≡ db.payments) × (db'.ledger_events ≡ db.ledger_events))
      ⊎ ((p : Payment) × (find (has_id pid) db.payments ≡ some p)
          × (is_succeeded p.status ≡ false)
          × (db'.payments ≡ (mark_succeeded now pid db).payments)
          × Appended pid settled_key db.ledger_events db'.ledger_events)
unfolding settle_mock_tx append insert_event stmt
settle_mock_tx-books now pid db db' u run = elim (Option-cases (find (has_id pid) db.payments)) [
  | inl missing ↦ inl (ground arith)
  | inr (p, there) ↦ elim (Bool-cases (is_succeeded p.status)) [
    | inl paid ↦ inl (ground arith)
    | inr unpaid ↦
        let payload : Object = (mock, flag true) ∷ [] in
        let same : db'.ledger_events
            ≡ (insert_event now p.tenant_id pid settled_key settlement_completed payload
                db).1.ledger_events =
          ground arith in
        inr (
          p,
          there,
          unpaid,
          ground arith,
          subst (Appended pid settled_key db.ledger_events) (sym same) (
              insert_event-Appended now p.tenant_id pid settled_key settlement_completed payload
                db),
        )
  ]
]
