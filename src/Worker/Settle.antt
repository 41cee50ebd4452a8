-- ===== src/Worker/Settle.antt =====
-- tryProcessOutbox of payflow-app/cmd/worker/main.go: what a round does to the oldest open row.
use payflow_payments_ops_pla.Base.{
  ℕ, ◌≡◌, refl, sym, ◌∙◌, subst, Bool, true, false, none, some, List, [], ◌∷◌, find, any,
  update_where, ⊤, ◌==◌,
}
use payflow_payments_ops_pla.Text.{Text}
use payflow_payments_ops_pla.Store.{
  Db, Env, Payment, OutboxRow, payment_settlement, payment_id, str, is_pending, ok, stmt,
  transact_if,
}
use payflow_payments_ops_pla.Store.Faults.{FaultSafe, clean, at}
use payflow_payments_ops_pla.Store.Atomic.{Atomic, clean-transact_if, transact_if-Atomic}
use payflow_payments_ops_pla.Ledger.{same_entry, settled_key}
use payflow_payments_ops_pla.Payment.{has_id, to_settle, settled}
use payflow_payments_ops_pla.Payment.Settle.{
  after_settle, settle_mock_tx-at, after_settle-find, after_settle-any, after_settle-async_outbox,
  after_settle-payments,
}
use payflow_payments_ops_pla.Payment.Safety as PaymentSafety
use payflow_payments_ops_pla.Refund.Safety as RefundSafety
use payflow_payments_ops_pla.Worker.{
  oldest, parse_id, mark_processed, outbox_tx, try_process_outbox,
}
use payflow_payments_ops_pla.Worker.Keeps.{outbox_tx-Keeps}

-- A new row is taken when no other row is free.
pub oldest-first :
    (locked : ℕ → Bool) (x : OutboxRow) (rows : List OutboxRow)
    → oldest locked rows ≡ none
    → x.processed_at ≡ none
    → locked x.id ≡ false
    → oldest locked (x ∷ rows) ≡ some x
unfolding oldest
oldest-first locked x rows idle is_new free = rw (idle, is_new, free) refl

pub outbox_tx-FaultSafe :
    (env : Env) (locked : ℕ → Bool) (now : ℕ) → FaultSafe (outbox_tx env locked now)
outbox_tx-FaultSafe env locked now =
    (outbox_tx-Keeps (λ _. ⊤) env now
      (λ pid. record {
        safe = PaymentSafety.settle_mock_tx-FaultSafe now pid;
        keeps = λ _ _ _ _ _. tt;
      })
      (λ rid. record {
        safe = RefundSafety.settle_mock_tx-FaultSafe env now rid;
        keeps = λ _ _ _ _ _. tt;
      })
      (λ _ _ _. tt) locked).safe

-- A round with failures against the one without.
pub try_process_outbox-Atomic :
    (env : Env) (locked : ℕ → Bool) (now : ℕ) (db : Db) (fs : List Bool)
    → Atomic db
        (clean (try_process_outbox env locked now) db)
        (try_process_outbox env locked now (at db fs))
unfolding try_process_outbox
try_process_outbox-Atomic env locked now db fs =
    subst (λ spec. Atomic db spec (transact_if (outbox_tx env locked now) (at db fs)))
      (sym (clean-transact_if (outbox_tx env locked now) db (outbox_tx-FaultSafe env locked now)))
      (transact_if-Atomic (outbox_tx env locked now) (outbox_tx-FaultSafe env locked now) db fs)

module _ (env : Env) (locked : ℕ → Bool) (now : ℕ) (db : Db) (row : OutboxRow) (text : Text)
    (pid : ℕ) (p : Payment) (first : oldest locked db.async_outbox ≡ some row)
    (kind : row.kind ≡ payment_settlement) (payload : row.payload ≡ (payment_id, str text) ∷ [])
    (parsed : env.uuid_parse text ≡ some pid) (found : find (has_id pid) db.payments ≡ some p)
    (waiting : is_pending p.status ≡ true) where
  abbrev settled_db : Db
  settled_db = mark_processed now row.id (after_settle now pid db p found)

  outbox_tx-settles :
      clean (outbox_tx env locked now) db
      ≡ (ok (record { payment_id = some pid; refund_id = none }, true), settled_db)
  unfolding outbox_tx parse_id stmt
  outbox_tx-settles =
      rw (first, kind, payload, parsed) (rw (settle_mock_tx-at now pid db p found waiting) refl)

-- Without failures of the database: where the oldest open and unlocked row of the outbox asks for
-- the settlement of a payment, its UUID parses, and the payment is there and pending,
-- tryProcessOutbox reports the payment, marks it succeeded, changes payments only in that the pending
-- ones with this id succeed now, leaves the refunds alone, has the settlement in the ledger, and
-- changes the outbox only in that the rows with this id are processed now.
pub try_process_outbox-settles :
    (env : Env) (locked : ℕ → Bool) (now : ℕ) (db : Db) (row : OutboxRow) (text : Text) (pid : ℕ)
    (p : Payment)
    → oldest locked db.async_outbox ≡ some row
    → row.kind ≡ payment_settlement
    → row.payload ≡ (payment_id, str text) ∷ []
    → env.uuid_parse text ≡ some pid
    → find (has_id pid) db.payments ≡ some p
    → is_pending p.status ≡ true
    → (db' : Db) × (clean (try_process_outbox env locked now) db
        ≡ (ok (record { payment_id = some pid; refund_id = none }), db'))
      × (find (has_id pid) db'.payments ≡ some (settled now p))
      × (any (same_entry pid settled_key) db'.ledger_events ≡ true)
      × (db'.async_outbox
          ≡ update_where
              (λ r. r.id == row.id)
              (λ r. record r { processed_at = some now })
              db.async_outbox)
      × (db'.payments ≡ update_where (to_settle pid) (settled now) db.payments)
      × (db'.refunds ≡ db.refunds)
unfolding try_process_outbox
try_process_outbox-settles env locked now db row text pid p first kind payload parsed found
      waiting =
    let db' = settled_db env locked now db row text pid p first kind payload parsed found waiting in
    let run =
      outbox_tx-settles env locked now db row text pid p first kind payload parsed found waiting in
    (
      db',
      clean-transact_if (outbox_tx env locked now) db (outbox_tx-FaultSafe env locked now)
          ∙ rw run refl,
      after_settle-find now pid db p found waiting,
      after_settle-any now pid db p found,
      rw (after_settle-async_outbox now pid db p found) refl,
      (after_settle-payments now pid db p found).0,
      (after_settle-payments now pid db p found).1,
    )
