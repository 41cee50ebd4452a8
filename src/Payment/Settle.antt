-- ===== src/Payment/Settle.antt =====
-- SettleMockTx and SettleMock of payflow-app/internal/payment/payment.go, once and again.
use payflow_payments_ops_pla.Base.{
  ⊤, ℕ, ◌≡◌, refl, ◌∙◌, inl, inr, true, false, Bool-cases, Option-cases, some, [], ◌∷◌, find,
  find-update, find_sound, any, update_where, arith,
}
use payflow_payments_ops_pla.Text.{text_eq_refl}
use payflow_payments_ops_pla.Store.{
  Db, Payment, is_pending, is_succeeded, settlement_completed, mock, flag, ok, stmt,
}
use payflow_payments_ops_pla.Store.Faults.{clean, at}
use payflow_payments_ops_pla.Store.Atomic.{clean-transact}
use payflow_payments_ops_pla.Ledger.{append, insert_event, same_entry, settled_key}
use payflow_payments_ops_pla.Payment.{
  has_id, to_settle, settled, mark_succeeded, settle_mock_tx, settle_mock,
}
use payflow_payments_ops_pla.Payment.Safety.{settle_mock_tx-FaultSafe}

module _ (now pid : ℕ) (db : Db) (p : Payment)
    (found : find (has_id pid) db.payments ≡ some p) where
  -- The tables after the settlement of a pending payment.
  abbrev pub after_settle : Db
  after_settle =
      mark_succeeded now pid
        (insert_event now p.tenant_id pid settled_key settlement_completed ((mock, flag true) ∷ [])
          db).1

  pub settle_mock_tx-pending :
      is_pending p.status ≡ true → clean (settle_mock_tx now pid) db ≡ (ok tt, after_settle)
  unfolding settle_mock_tx append stmt
  settle_mock_tx-pending waiting = ground (arith, found)

  -- The same, with no failures left over.
  pub settle_mock_tx-at :
      is_pending p.status ≡ true → settle_mock_tx now pid (at db []) ≡ (ok tt, at after_settle [])
  unfolding settle_mock_tx append stmt
  settle_mock_tx-at waiting = ground (arith, found)

  pub settle_mock_tx-succeeded :
      is_succeeded p.status ≡ true → clean (settle_mock_tx now pid) db ≡ (ok tt, db)
  unfolding settle_mock_tx append stmt
  settle_mock_tx-succeeded done = ground (arith, found)

  pub after_settle-find :
      is_pending p.status ≡ true → find (has_id pid) after_settle.payments ≡ some (settled now p)
  unfolding insert_event
  after_settle-find waiting = ground (
    arith,
    found,
    find_sound (has_id pid) db.payments p,
    find-update (has_id pid) (to_settle pid) (settled now) db.payments (λ x. refl),
  )

  pub after_settle-any : any (same_entry pid settled_key) after_settle.ledger_events ≡ true
  unfolding insert_event
  after_settle-any = ground (arith, text_eq_refl settled_key)

  pub after_settle-async_outbox : after_settle.async_outbox ≡ db.async_outbox
  unfolding insert_event
  after_settle-async_outbox = ground arith

  pub after_settle-payments :
      (after_settle.payments ≡ update_where (to_settle pid) (settled now) db.payments)
      × (after_settle.refunds ≡ db.refunds)
  unfolding insert_event
  after_settle-payments = (ground arith, ground arith)

  -- SettleMock without failures, from its transaction.
  clean-settle_mock :
      (db2 : Db) (when : ℕ)
      → clean (settle_mock_tx when pid) db ≡ (ok tt, db2)
      → clean (settle_mock when pid) db ≡ (ok tt, db2)
  unfolding settle_mock
  clean-settle_mock db2 when run =
      clean-transact (settle_mock_tx when pid) db (settle_mock_tx-FaultSafe when pid) ∙ rw run refl

-- SettleMock of a pending payment, while the database works, marks it succeeded and leaves its
-- settlement in the ledger; a second call for it succeeds too, and changes nothing.
pub settle_mock-once :
    (now later pid : ℕ) (db : Db) (p : Payment)
    → find (has_id pid) db.payments ≡ some p
    → is_pending p.status ≡ true
    → (db' : Db) × (clean (settle_mock now pid) db ≡ (ok tt, db'))
      × (find (has_id pid) db'.payments ≡ some (settled now p))
      × (any (same_entry pid settled_key) db'.ledger_events ≡ true)
      × (clean (settle_mock later pid) db' ≡ (ok tt, db'))
settle_mock-once now later pid db p found waiting =
    let db' = after_settle now pid db p found in
    let row = after_settle-find now pid db p found waiting in
    (
      db',
      clean-settle_mock now pid db p found db' now
          (settle_mock_tx-pending now pid db p found waiting),
      row,
      after_settle-any now pid db p found,
      clean-settle_mock later pid db' (settled now p) row db' later
          (settle_mock_tx-succeeded later pid db' (settled now p) row refl),
    )

-- After a settlement that succeeds the outbox is as it was, and the payment is not pending.
pub settle_mock_tx-done :
    (now pid : ℕ) (db db' : Db) (u : ⊤)
    → clean (settle_mock_tx now pid) db ≡ (ok u, db')
    → (db'.async_outbox ≡ db.async_outbox)
      × ((p : Payment) → find (has_id pid) db'.payments ≡ some p → is_pending p.status ≡ false)
unfolding settle_mock_tx append insert_event stmt
settle_mock_tx-done now pid db db' u run = (
  ground arith,
  λ p found.
      let updated =
        find-update (has_id pid) (to_settle pid) (settled now) db.payments (λ q. refl) in
      elim (Option-cases (find (has_id pid) db.payments)) [
        | inl missing ↦ absurd (ground (arith, updated))
        | inr (q, there) ↦ elim (Bool-cases (is_pending q.status)) [
          | inl waiting ↦ ground (arith, updated, find_sound (has_id pid) db.payments q there)
          | inr over ↦ ground (arith, updated)
        ]
      ],
)

-- Without failures of the database SettleMockTx has no error.
pub settle_mock_tx-ok :
    (now pid : ℕ) (db : Db) → (after : Db) × (clean (settle_mock_tx now pid) db ≡ (ok tt, after))
unfolding settle_mock_tx append stmt
settle_mock_tx-ok now pid db = elim (Option-cases (find (has_id pid) db.payments)) [
  | inl missing ↦ (db, ground (arith, missing))
  | inr (p, there) ↦ elim (Bool-cases (is_succeeded p.status)) [
    | inl paid ↦ (db, ground (arith, there))
    | inr unpaid ↦ (after_settle now pid db p there, ground (arith, there))
  ]
]
