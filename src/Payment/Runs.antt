-- ===== src/Payment/Runs.antt =====
-- payflow-app/internal/payment/payment.go: what Create and SettleMock do when the database does
-- not fail, case by case.
use payflow_payments_ops_pla.Base.{
  ⊤, ℕ, ◌+◌, ◌<◌, ◌⊎◌, inl, inr, ◌&&◌, ◌≡◌, sym, ◌∙◌, Bool-cases, ℤ, pos_part, Bool, true, false,
  none, some, ◌∷◌, [], not, find, any, find-any-false, find-some-any, ◌==◌, arith,
}
use payflow_payments_ops_pla.Text.{Text, text_eq}
use payflow_payments_ops_pla.Store.{
  Db, Env, Draw, Payment, OutboxRow, ok, err, invalid_input, idempotency_mismatch, payment_create,
  payment_accepted, payment_created, payment_settlement, amount_cents, currency, payment_id, num,
  str, stmt,
}
use payflow_payments_ops_pla.Store.Faults.{clean}
use payflow_payments_ops_pla.Store.Atomic.{or_rollback, or_rollback-ok, clean-transact}
use payflow_payments_ops_pla.Payment.{
  settle_mock_tx, mark_succeeded, is_valid_create, normalize, request_fingerprint, same_key, has_id,
  new_payment, insert_payment, replay, accept, create_tx, create,
}
use payflow_payments_ops_pla.Payment.Safety.{create_tx-FaultSafe}
use payflow_payments_ops_pla.Ledger.{append, insert_event, same_entry, accepted_key}
use payflow_payments_ops_pla.Audit.{write}
use payflow_payments_ops_pla.Outbox.{insert_payment_settlement}

module _ (env : Env) (draw : Draw) (tid : ℕ) (key : Text) (amount : ℤ) (raw : Text) (db : Db) where
  pub clean-create :
      is_valid_create amount raw key ≡ true
      → clean (create env draw tid key amount raw) db
        ≡ or_rollback db (clean (create_tx env draw tid key amount (normalize env raw)) db)
  unfolding create
  clean-create valid =
      rw (valid, not)
        (clean-transact (create_tx env draw tid key amount (normalize env raw)) db
          (create_tx-FaultSafe env draw tid key amount (normalize env raw)))

  pub create-invalid :
      is_valid_create amount raw key ≡ false
      → clean (create env draw tid key amount raw) db ≡ (err invalid_input, db)
  unfolding create
  create-invalid invalid = ground arith

  -- A success comes from valid input and from the transaction.
  pub create-success :
      (x : Payment × Bool) (db' : Db)
      → clean (create env draw tid key amount raw) db ≡ (ok x, db')
      → (is_valid_create amount raw key ≡ true)
        × (clean (create_tx env draw tid key amount (normalize env raw)) db ≡ (ok x, db'))
  create-success x db' run = elim (Bool-cases (is_valid_create amount raw key)) [
    | inl valid ↦ (
      valid,
      or_rollback-ok db (clean (create_tx env draw tid key amount (normalize env raw)) db) x db'
          (sym (clean-create valid) ∙ run),
    )
    | inr invalid ↦ absurd (ground (arith, create-invalid invalid))
  ]

module _ (env : Env) (draw : Draw) (tid : ℕ) (key : Text) (amount : ℤ) (cur : Text) (db : Db) where
  -- The payment that a replay returns: the stored row, with the fields of the request.
  abbrev pub replayed : Payment → Payment
  replayed p = record p {
    tenant_id = tid;
    amount_cents = pos_part amount;
    currency = cur;
    idempotency_key = key;
    idempotency_scope = payment_create;
  }

  pub create_tx-replay :
      (p : Payment)
      → find (same_key tid key) db.payments ≡ some p
      → text_eq p.request_hash (request_fingerprint env amount cur) ≡ true
      → clean (create_tx env draw tid key amount cur) db ≡ (ok (replayed p, false), db)
  unfolding create_tx insert_payment replay stmt
  create_tx-replay p found same = ground (arith, find-some-any (same_key tid key) db.payments p)

  pub create_tx-mismatch :
      (p : Payment)
      → find (same_key tid key) db.payments ≡ some p
      → text_eq p.request_hash (request_fingerprint env amount cur) ≡ false
      → clean (create_tx env draw tid key amount cur) db ≡ (err idempotency_mismatch, db)
  unfolding create_tx insert_payment replay stmt
  create_tx-mismatch p found same = ground (arith, find-some-any (same_key tid key) db.payments p)

  -- The tables after a new payment: one row more in each of payments, ledger, audit and outbox.
  abbrev pub accepted : Payment
  accepted = new_payment env draw tid key amount cur

  -- The row of the outbox that settles it.
  abbrev pub opened : OutboxRow
  opened = record {
    id = draw.outbox_id;
    kind = payment_settlement;
    payload = (payment_id, str (env.uuid_string draw.row_id)) ∷ [];
    created_at = draw.now;
    processed_at = none;
  }

  abbrev pub is_free : Bool
  is_free =
      not (any (same_key tid key) db.payments)
      && not (any (has_id draw.row_id) db.payments)
      && not (any (same_entry draw.row_id accepted_key) db.ledger_events)
      && not (any (λ r. r.id == draw.outbox_id) db.async_outbox)

  abbrev pub accepted_db : Db
  accepted_db = record db {
    payments = accepted ∷ db.payments;
    next_event = db.next_event + 1;
    ledger_events =
        record {
          id = db.next_event;
          tenant_id = tid;
          payment_id = draw.row_id;
          dedupe_key = accepted_key;
          event_type = payment_accepted;
          payload = (amount_cents, num amount) ∷ (currency, str cur) ∷ [];
          created_at = draw.now;
        }
        ∷ db.ledger_events;
    audit_events =
        record {
          tenant_id = some tid;
          event_type = payment_created;
          metadata =
              (payment_id, str (env.uuid_string draw.row_id))
              ∷ (amount_cents, num amount)
              ∷ (currency, str cur)
              ∷ [];
        }
        ∷ db.audit_events;
    async_outbox = opened ∷ db.async_outbox;
  }

  pub create_tx-accept :
      0 < pos_part amount
      → is_free ≡ true
      → clean (create_tx env draw tid key amount cur) db ≡ (ok (accepted, true), accepted_db)
  unfolding create_tx insert_payment accept stmt append insert_event write insert_payment_settlement
  create_tx-accept positive free = ground arith

  -- A call that finds no row under its key, and succeeds, has put its payment there.
  pub create_tx-fresh :
      (p : Payment) (created : Bool) (db' : Db)
      → find (same_key tid key) db.payments ≡ none
      → clean (create_tx env draw tid key amount cur) db ≡ (ok (p, created), db')
      → (created ≡ true)
        × (p ≡ accepted)
        × (0 < pos_part amount)
        × (any (has_id draw.row_id) db.payments ≡ false)
        × (db'.payments ≡ accepted ∷ db.payments)
        × (db'.refunds ≡ db.refunds)
        × (db'.async_outbox ≡ opened ∷ db.async_outbox)
        × (any (λ r. r.id == draw.outbox_id) db.async_outbox ≡ false)
  unfolding create_tx insert_payment accept replay stmt append insert_event write
      insert_payment_settlement
  create_tx-fresh p created db' none_there run =
      ground (arith, find-any-false (same_key tid key) db.payments)

  pub create_tx-found :
      (q p : Payment) (created : Bool) (db' : Db)
      → find (same_key tid key) db.payments ≡ some q
      → clean (create_tx env draw tid key amount cur) db ≡ (ok (p, created), db')
      → (created ≡ false)
        × (p ≡ replayed q)
        × (db' ≡ db)
        × (text_eq q.request_hash (request_fingerprint env amount cur) ≡ true)
  unfolding create_tx insert_payment accept replay stmt
  create_tx-found q p created db' found run =
      ground (arith, find-some-any (same_key tid key) db.payments q)

-- What the settlement of a payment does: nothing, or a ledger row and the status.
pub settle_mock_tx-cases :
    (now pid : ℕ) (db db' : Db) (u : ⊤)
    → clean (settle_mock_tx now pid) db ≡ (ok u, db')
    → (db'.refunds ≡ db.refunds)
      × ((db'.payments ≡ db.payments) ⊎ (db'.payments ≡ (mark_succeeded now pid db).payments))
unfolding settle_mock_tx append insert_event stmt
settle_mock_tx-cases now pid db db' u run = ground arith
