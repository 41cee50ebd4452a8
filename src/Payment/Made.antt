-- ===== src/Payment/Made.antt =====
-- payflow-app/internal/payment/payment.go: every row that a Create writes, and when it is
-- refused, where no call of the database fails.
use payflow_payments_ops_pla.Base.{
  ℕ, ◌≡◌, ℤ, Bool, true, none, some, [], ◌∷◌, find, any, ◌||◌, ◌==◌, ◌<◌, pos_part, arith,
  find-any-false,
}
use payflow_payments_ops_pla.Text.{Text, text_eq_refl}
use payflow_payments_ops_pla.Store.{
  Db, Env, Draw, Payment, payment_created, payment_settlement, amount_cents, currency, payment_id,
  num, str, Error, db_error, ok, err, stmt,
}
use payflow_payments_ops_pla.Store.Faults.{clean}
use payflow_payments_ops_pla.Ledger.{append, insert_event, same_entry, accepted_key}
use payflow_payments_ops_pla.Audit.{write}
use payflow_payments_ops_pla.Outbox.{insert_payment_settlement}
use payflow_payments_ops_pla.Payment.{
  has_id, same_key, new_payment, insert_payment, replay, accept, create_tx,
}

-- An id that the database drew is taken.
abbrev pub is_taken : Draw → Db → Bool
is_taken draw db =
    any (has_id draw.row_id) db.payments || any (λ r. r.id == draw.outbox_id) db.async_outbox

module _ (env : Env) (draw : Draw) (tid : ℕ) (key : Text) (amount : ℤ) (cur : Text) where
  -- Its key is new, and every row that belongs to it is there: itself, and those of ledger, audit and outbox.
  pub record Made (old new : Db) : Type 0 where
    pub fresh : find (same_key tid key) old.payments ≡ none
    pub row : new.payments ≡ new_payment env draw tid key amount cur ∷ old.payments
    pub entry : any (same_entry draw.row_id accepted_key) new.ledger_events ≡ true
    pub audited :
        new.audit_events
        ≡ record {
          tenant_id = some tid;
          event_type = payment_created;
          metadata =
              (payment_id, str (env.uuid_string draw.row_id))
              ∷ (amount_cents, num amount)
              ∷ (currency, str cur)
              ∷ [];
        }
          ∷ old.audit_events
    pub asked :
        new.async_outbox
        ≡ record {
          id = draw.outbox_id;
          kind = payment_settlement;
          payload = (payment_id, str (env.uuid_string draw.row_id)) ∷ [];
          created_at = draw.now;
          processed_at = none;
        }
          ∷ old.async_outbox

  pub create_tx-refused :
      (db : Db) (e : Error)
      → find (same_key tid key) db.payments ≡ none
      → 0 < pos_part amount
      → (clean (create_tx env draw tid key amount cur) db).0 ≡ err e
      → (is_taken draw db ≡ true) × (e ≡ db_error)
  unfolding create_tx insert_payment accept replay stmt append insert_event write
      insert_payment_settlement
  create_tx-refused db e none_there positive run =
      ground (arith, find-any-false (same_key tid key) db.payments)

  pub create_tx-Made :
      (db db' : Db) (x : Payment × Bool)
      → find (same_key tid key) db.payments ≡ none
      → clean (create_tx env draw tid key amount cur) db ≡ (ok x, db')
      → Made db db'
  unfolding create_tx insert_payment accept replay stmt append insert_event write
      insert_payment_settlement
  create_tx-Made db db' x none_there run = record {
    fresh = none_there;
    row = ground (arith, find-any-false (same_key tid key) db.payments);
    entry =
        ground (arith, find-any-false (same_key tid key) db.payments, text_eq_refl accepted_key);
    audited = ground (arith, find-any-false (same_key tid key) db.payments);
    asked = ground (arith, find-any-false (same_key tid key) db.payments);
  }
