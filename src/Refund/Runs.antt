-- ===== src/Refund/Runs.antt =====
-- payflow-app/internal/refund/refund.go: what Create does when the database does not fail.
use payflow_payments_ops_pla.Base.{
  ℕ, ◌+◌, ◌<◌, ◌≤◌, ◌≡◌, sym, ◌∙◌, ◌⊎◌, inl, inr, subst, ⊤, Bool-cases, Option-cases, ℤ, pos,
  pos_part, Bool, true, false, none, some, [], ◌∷◌, find, ◌==◌, any, find-any-false, find-some-any,
  ◌||◌, arith, add64_exact, ltb, ◌^◌,
}
use payflow_payments_ops_pla.Text.{Text, text_eq, is_empty, byte_len, trim_space, to_upper}
use payflow_payments_ops_pla.Store.{
  Db, Env, Draw, Payment, Refund, ok, err, is_succeeded, refund_amount_exceeded, refund_create,
  refund_settlement, refund_id, str, OutboxRow, Tx, stmt,
}
use payflow_payments_ops_pla.Store.Faults.{clean, bind-ok}
use payflow_payments_ops_pla.Store.Atomic.{or_rollback, or_rollback-ok, clean-transact}
use payflow_payments_ops_pla.Payment.{has_id}
use payflow_payments_ops_pla.Refund.{
  joined, mark_refunded, settle_mock_tx, request_fingerprint, same_key, has_refund_id, reserved,
  sum_reserved, asked, new_refund, insert_refund, replay, accept, insert_tx, check_tx, create_tx,
  create,
}
use payflow_payments_ops_pla.Refund.Safety.{create_tx-FaultSafe, check_tx-FaultSafe}
use payflow_payments_ops_pla.Ledger.{append, insert_event}
use payflow_payments_ops_pla.Audit.{write}
use payflow_payments_ops_pla.Outbox.{insert_refund_settlement}

-- The check passes only for a succeeded payment of the tenant, and for an amount that is positive,
-- within the payment, and within what is left of it if the sum is an int64.
pub check_tx-passes :
    (tid pid : ℕ) (amount : ℤ) (p : Payment) (db db' : Db) (u : Unit {0})
    → clean (check_tx tid pid amount p) db ≡ (ok u, db')
    → (db' ≡ db)
      × (p.tenant_id ≡ tid)
      × (is_succeeded p.status ≡ true)
      × (asked amount p ≡ pos (pos_part (asked amount p)))
      × (0 < pos_part (asked amount p))
      × (pos_part (asked amount p) ≤ p.amount_cents)
      × (p.amount_cents < 2 ^ 62
          → reserved pid db ≤ p.amount_cents
          → reserved pid db + pos_part (asked amount p) ≤ p.amount_cents)
unfolding check_tx sum_reserved stmt
check_tx-passes tid pid amount p db db' u run =
    ground (arith, add64_exact (reserved pid db) (pos_part (asked amount p)))

-- The sum decides between the two ends of the check, where no sum overflows.
module _ (tid pid : ℕ) (amount : ℤ) (p : Payment) (db : Db) (owner : p.tenant_id ≡ tid)
    (settled : is_succeeded p.status ≡ true)
    (shape : asked amount p ≡ pos (pos_part (asked amount p)))
    (positive : 0 < pos_part (asked amount p)) (within : pos_part (asked amount p) ≤ p.amount_cents)
    (small : p.amount_cents < 2 ^ 62) (covered : reserved pid db ≤ p.amount_cents) where
  pub check_tx-fits :
      reserved pid db + pos_part (asked amount p) ≤ p.amount_cents
      → clean (check_tx tid pid amount p) db ≡ (ok tt, db)
  unfolding check_tx sum_reserved stmt
  check_tx-fits fits = ground (arith, add64_exact (reserved pid db) (pos_part (asked amount p)))

  pub check_tx-exceeds :
      p.amount_cents < reserved pid db + pos_part (asked amount p)
      → clean (check_tx tid pid amount p) db ≡ (err refund_amount_exceeded, db)
  unfolding check_tx sum_reserved stmt
  check_tx-exceeds over = ground (arith, add64_exact (reserved pid db) (pos_part (asked amount p)))

-- The refund that a replay returns: the stored row, with the fields of the request.
abbrev pub replayed : ℕ → ℕ → Text → ℤ → Text → Refund → Refund
replayed tid pid key amt cur r = record r {
  tenant_id = tid;
  payment_id = pid;
  amount_cents = pos_part amt;
  currency = cur;
  idempotency_key = key;
  idempotency_scope = refund_create;
}

module _ (env : Env) (draw : Draw) (tid pid : ℕ) (key : Text) (amt : ℤ) (cur : Text) (db : Db) where
  -- The row of the outbox that settles it.
  abbrev pub opened : OutboxRow
  opened = record {
    id = draw.outbox_id;
    kind = refund_settlement;
    payload = (refund_id, str (env.uuid_string draw.row_id)) ∷ [];
    created_at = draw.now;
    processed_at = none;
  }

  pub insert_tx-fresh :
      (r : Refund) (created : Bool) (db' : Db)
      → find (same_key tid key) db.refunds ≡ none
      → clean (insert_tx env draw tid pid key amt cur) db ≡ (ok (r, created), db')
      → (created ≡ true)
        × (r ≡ new_refund env draw tid pid key amt cur)
        × (any (has_refund_id draw.row_id) db.refunds ≡ false)
        × (db'.payments ≡ db.payments)
        × (db'.refunds ≡ new_refund env draw tid pid key amt cur ∷ db.refunds)
        × (db'.async_outbox ≡ opened ∷ db.async_outbox)
        × (any (λ r. r.id == draw.outbox_id) db.async_outbox ≡ false)
  unfolding insert_tx insert_refund accept replay stmt append insert_event write
      insert_refund_settlement
  insert_tx-fresh r created db' none_there run =
      ground (arith, find-any-false (same_key tid key) db.refunds)

  pub insert_tx-found :
      (q r : Refund) (created : Bool) (db' : Db)
      → find (same_key tid key) db.refunds ≡ some q
      → clean (insert_tx env draw tid pid key amt cur) db ≡ (ok (r, created), db')
      → (created ≡ false)
        × (r ≡ replayed tid pid key amt cur q)
        × (db' ≡ db)
        × (text_eq q.request_hash (request_fingerprint env pid amt) ≡ true)
  unfolding insert_tx insert_refund accept replay stmt
  insert_tx-found q r created db' found run =
      ground (arith, find-some-any (same_key tid key) db.refunds q)

module _ (env : Env) (draw : Draw) (tid pid : ℕ) (key : Text) (amount : ℤ) (db : Db) where
  abbrev pub insert_of : Payment → Tx (Refund × Bool)
  insert_of p =
      insert_tx env draw tid pid key (asked amount p)
        (to_upper env.upper_table (trim_space p.currency))

  -- A success has found the payment, passed the checks, and then inserted.
  pub create_tx-success :
      (x : Refund × Bool) (db' : Db)
      → clean (create_tx env draw tid pid key amount) db ≡ (ok x, db')
      → (p : Payment) × (find (has_id pid) db.payments ≡ some p)
        × (clean (check_tx tid pid amount p) db ≡ (ok tt, db))
        × (clean (insert_of p) db ≡ (ok x, db'))
  unfolding create_tx stmt
  create_tx-success x db' run = elim (Option-cases (find (has_id pid) db.payments)) [
    | inl missing ↦ absurd (ground arith)
    | inr (p, found) ↦
        let parts : (u : ⊤) × (mid : Db) × (clean (check_tx tid pid amount p) db ≡ (ok u, mid))
            × (clean (insert_of p) mid ≡ (ok x, db')) =
          bind-ok (check_tx tid pid amount p) (λ _. insert_of p) db x db'
            (check_tx-FaultSafe tid pid amount p) (ground arith) in
        let same : parts.1 ≡ db = (check_tx-passes tid pid amount p db parts.1 parts.0 parts.2).0 in
        (
          p,
          found,
          subst (λ d. clean (check_tx tid pid amount p) db ≡ (ok tt, d)) same parts.2,
          subst (λ d. clean (insert_of p) d ≡ (ok x, db')) same parts.3,
        )
  ]

  abbrev pub is_bad_key : Bool
  is_bad_key = is_empty (trim_space key) || ltb 200 (byte_len key)

  pub clean-create :
      is_bad_key ≡ false
      → clean (create env draw tid pid key amount) db
        ≡ or_rollback db (clean (create_tx env draw tid pid key amount) db)
  unfolding create
  clean-create valid = rw valid (
      clean-transact (create_tx env draw tid pid key amount) db
        (create_tx-FaultSafe env draw tid pid key amount))

  -- A success of Create is a success of its transaction, under a key that is no bad one.
  pub create-success :
      (x : Refund × Bool) (db' : Db)
      → clean (create env draw tid pid key amount) db ≡ (ok x, db')
      → (is_bad_key ≡ false) × (clean (create_tx env draw tid pid key amount) db ≡ (ok x, db'))
  unfolding create
  create-success x db' run = elim (Bool-cases is_bad_key) [
    | inl invalid ↦ absurd (ground arith)
    | inr valid ↦ (
      valid,
      or_rollback-ok db (clean (create_tx env draw tid pid key amount) db) x db'
          (sym (clean-create valid) ∙ run),
    )
  ]

-- What the settlement of a refund does: nothing; or an error; or a ledger row and the status.
pub settle_mock_tx-cases :
    (env : Env) (now rid : ℕ) (db db' : Db) (u : ⊤)
    → clean (settle_mock_tx env now rid) db ≡ (ok u, db')
    → (db'.payments ≡ db.payments)
      × ((db'.refunds ≡ db.refunds) ⊎ (db'.refunds ≡ (mark_refunded now rid db).refunds))
unfolding settle_mock_tx joined append insert_event stmt
settle_mock_tx-cases env now rid db db' u run = ground arith
