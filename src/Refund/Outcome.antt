-- ===== src/Refund/Outcome.antt =====
-- payflow-app/internal/refund/refund.go: what Create leaves behind, whatever calls of the database
-- fail.
use payflow_payments_ops_pla.Base.{
  ℕ, ◌≡◌, refl, inl, inr, ◌⊎◌, ◌<◌, ◌≤◌, ℤ, pos_part, Bool, true, false, Option-cases, none, some,
  List, [], ◌∷◌, find, any, arith, find-any-false,
}
use payflow_payments_ops_pla.Text.{Text, text_eq, text_eq_refl, to_upper, trim_space}
use payflow_payments_ops_pla.Store.{
  Db, Env, Draw, Payment, Refund, is_succeeded, refund_created, refund_settlement, amount_cents,
  payment_id, refund_id, num, str, Error, db_error, Result, ok, err, TxState, stmt,
}
use payflow_payments_ops_pla.Store.Faults.{clean, at}
use payflow_payments_ops_pla.Store.Atomic.{Atomic-cases}
use payflow_payments_ops_pla.Ledger.{append, insert_event, same_entry, requested_key}
use payflow_payments_ops_pla.Audit.{write}
use payflow_payments_ops_pla.Outbox.{insert_refund_settlement}
use payflow_payments_ops_pla.Payment.{has_id}
use payflow_payments_ops_pla.Refund.{
  same_key, asked, request_fingerprint, new_refund, insert_refund, replay, accept, insert_tx,
  create,
}
use payflow_payments_ops_pla.Refund.Safety.{create_refund-Atomic}
use payflow_payments_ops_pla.Refund.Runs.{
  replayed, check_tx-passes, create-success, create_tx-success, insert_tx-fresh, insert_tx-found,
}

module _ (env : Env) (draw : Draw) (tid pid : ℕ) (key : Text) (amount : ℤ) where
  -- The currency that a refund of the payment gets.
  abbrev currency_of : Payment → Text
  currency_of p = to_upper env.upper_table (trim_space p.currency)

  -- The payment is one that can be refunded by this much, the key is new, and every row that
  -- belongs to the refund is there: itself, and those of ledger, audit and outbox.
  pub record Made (p : Payment) (old new : Db) : Type 0 where
    pub there : find (has_id pid) old.payments ≡ some p
    pub owner : p.tenant_id ≡ tid
    pub settled : is_succeeded p.status ≡ true
    pub positive : 0 < pos_part (asked amount p)
    pub within : pos_part (asked amount p) ≤ p.amount_cents
    pub fresh : find (same_key tid key) old.refunds ≡ none
    pub row :
        new.refunds ≡ new_refund env draw tid pid key (asked amount p) (currency_of p) ∷ old.refunds
    pub entry : any (same_entry pid (requested_key env draw.row_id)) new.ledger_events ≡ true
    pub audited :
        new.audit_events
        ≡ record {
          tenant_id = some tid;
          event_type = refund_created;
          metadata =
              (refund_id, str (env.uuid_string draw.row_id))
              ∷ (payment_id, str (env.uuid_string pid))
              ∷ (amount_cents, num (asked amount p))
              ∷ [];
        }
          ∷ old.audit_events
    pub waits :
        new.async_outbox
        ≡ record {
          id = draw.outbox_id;
          kind = refund_settlement;
          payload = (refund_id, str (env.uuid_string draw.row_id)) ∷ [];
          created_at = draw.now;
          processed_at = none;
        }
          ∷ old.async_outbox

  -- The four ways in which Create ends: with a refund made, and reported as such or as a failure
  -- of the database; with the refund that is there; with an error and nothing changed.
  pub data Outcome (old : Db) (out : Result (Refund × Bool) × TxState) : Type 0 where
    created :
        (p : Payment)
        → Made p old out.1.db
        → out.0 ≡ ok (new_refund env draw tid pid key (asked amount p) (currency_of p), true)
        → Outcome old out
    unsure : (p : Payment) → Made p old out.1.db → out.0 ≡ err db_error → Outcome old out
    found :
        (p : Payment) (q : Refund)
        → find (has_id pid) old.payments ≡ some p
        → find (same_key tid key) old.refunds ≡ some q
        → text_eq q.request_hash (request_fingerprint env pid (asked amount p)) ≡ true
        → out.0 ≡ ok (replayed tid pid key (asked amount p) (currency_of p) q, false)
        → out.1.db ≡ old
        → Outcome old out
    refused :
        (e : Error)
        → ((clean (create env draw tid pid key amount) old).0 ≡ err e) ⊎ (e ≡ db_error)
        → out.0 ≡ err e
        → out.1.db ≡ old
        → Outcome old out

  insert_tx-audited :
      (p : Payment) (db db' : Db) (x : Refund × Bool)
      → find (same_key tid key) db.refunds ≡ none
      → clean (insert_tx env draw tid pid key (asked amount p) (currency_of p)) db ≡ (ok x, db')
      → (any (same_entry pid (requested_key env draw.row_id)) db'.ledger_events ≡ true)
        × (db'.audit_events
            ≡ record {
              tenant_id = some tid;
              event_type = refund_created;
              metadata =
                  (refund_id, str (env.uuid_string draw.row_id))
                  ∷ (payment_id, str (env.uuid_string pid))
                  ∷ (amount_cents, num (asked amount p))
                  ∷ [];
            }
              ∷ db.audit_events)
  unfolding insert_tx insert_refund accept replay stmt append insert_event write
      insert_refund_settlement
  insert_tx-audited p db db' x none_there run = ground (
    arith,
    find-any-false (same_key tid key) db.refunds,
    text_eq_refl (requested_key env draw.row_id),
  )

  tx-Outcome :
      (db : Db) (x : Refund × Bool) (out : Result (Refund × Bool) × TxState)
      → clean (create env draw tid pid key amount) db ≡ (ok x, out.1.db)
      → (out.0 ≡ ok x) ⊎ (out.0 ≡ err db_error)
      → Outcome db out
  tx-Outcome db (r, is_new) out run reply =
      let db' = out.1.db in
      let inside = (create-success env draw tid pid key amount db (r, is_new) db' run).1 in
      let (p, there, passed, inserts) =
        create_tx-success env draw tid pid key amount db (r, is_new) db' inside in
      let pass = check_tx-passes tid pid amount p db db tt passed in
      let amt = asked amount p in
      let cur = currency_of p in
      elim (Option-cases (find (same_key tid key) db.refunds)) [
        | inl missing ↦
            let log = insert_tx-audited p db db' (r, is_new) missing inserts in
            let facts =
              insert_tx-fresh env draw tid pid key amt cur db r is_new db' missing inserts in
            let made : Made p db db' = record {
              there = there;
              owner = pass.1;
              settled = pass.2;
              positive = pass.4;
              within = pass.5;
              fresh = missing;
              row = facts.4;
              entry = log.0;
              audited = log.1;
              waits = facts.5;
            } in
            elim reply [
              | inl done ↦ created p made (ground (arith, done, facts.0, facts.1))
              | inr lost ↦ unsure p made lost
            ]
        | inr (q, stored) ↦
            let facts =
              insert_tx-found env draw tid pid key amt cur db q r is_new db' stored inserts in
            elim reply [
              | inl done ↦
                  found p q there stored facts.3 (ground (arith, done, facts.0, facts.1)) facts.2
              | inr lost ↦ refused db_error (inr refl) lost facts.2
            ]
      ]

-- Whatever calls of the database fail, Create ends in one of four ways: the payment is a succeeded
-- one of the tenant, the amount is positive and at most the payment's, the key was new, the refund,
-- its entry in the ledger, its audit entry and its open row of the outbox are all written, and it
-- returns the refund as created; or the same, and it returns a database error; or the tables are as
-- before, and it returns the refund stored under the key, whose fingerprint is that of the request,
-- as not created; or the tables are as before, and it returns a database error or
-- the error that it returns where no call fails.
pub create_refund-Outcome :
    (env : Env) (draw : Draw) (tid pid : ℕ) (key : Text) (amount : ℤ) (db : Db) (fs : List Bool)
    → Outcome env draw tid pid key amount db (create env draw tid pid key amount (at db fs))
create_refund-Outcome env draw tid pid key amount db fs =
    let out = create env draw tid pid key amount (at db fs) in
    elim (Atomic-cases db (clean (create env draw tid pid key amount) db) out
      (create_refund-Atomic env draw tid pid key amount db fs)) [
        | inl (x, run, reply) ↦ tx-Outcome env draw tid pid key amount db x out run reply
        | inr (e, reply, same, why) ↦ refused e why reply same
      ]
