-- ===== src/Refund.antt =====
-- payflow-app/internal/refund/refund.go: refunds of a succeeded payment, bounded by its amount.
pub mod Safety
pub mod Runs
pub mod Outcome
pub mod Settle
pub mod Bound
pub mod Idempotency
pub mod Entries
pub mod Books
pub mod Overflow
use payflow_payments_ops_pla.Base.{
  ℕ, ◌<◌, ◌^◌, Bool, true, false, not, ◌&&◌, ◌||◌, Option, none, some, [], ◌∷◌, find, any,
  update_where, sum_where, ⊤, ℤ, pos, pos_part, leb_ℤ, ltb_ℤ, eqb_ℤ, add64, int64_limit, ltb, ◌==◌,
  if◌then◌else◌,
}
use payflow_payments_ops_pla.Text.{Text, text_eq, is_empty, byte_len, trim_space, to_upper}
use payflow_payments_ops_pla.Store.{
  Db, Env, Draw, Payment, Refund, Status, pending, succeeded, is_pending, is_succeeded,
  is_reserving, scope_eq, refund_create, LedgerType, refund_created, Object, amount_cents, currency,
  payment_id, refund_id, num, str, Result, ok, err, db_error, no_rows, invalid_input, not_found,
  idempotency_mismatch, payment_not_refundable, refund_amount_exceeded, refund_settle_status, Tx,
  pure, raise, raise_if, or_raise, stmt, query, exec, transact, ◌>>=◌, ◌>>◌,
}
use payflow_payments_ops_pla.Ledger.{requested_key, refunded_key}
use payflow_payments_ops_pla.Payment.{has_id}
use payflow_payments_ops_pla.Ledger
use payflow_payments_ops_pla.Audit
use payflow_payments_ops_pla.Outbox

-- requestFingerprint.
unfoldable pub request_fingerprint : Env → ℕ → ℤ → Text
request_fingerprint env pid amount =
    env.sha256_hex
      (env.json_marshal ((payment_id, str (env.uuid_string pid)) ∷ (amount_cents, num amount) ∷ []))

-- The row that UNIQUE (tenant_id, idempotency_scope, idempotency_key) compares with.
abbrev pub same_key : ℕ → Text → Refund → Bool
same_key tid key r =
    r.tenant_id == tid
    && scope_eq r.idempotency_scope refund_create
    && text_eq r.idempotency_key key

abbrev pub has_refund_id : ℕ → Refund → Bool
has_refund_id rid r = r.id == rid

-- `payment_id = $1 AND status IN ('pending', 'succeeded')`.
abbrev pub reserves : ℕ → Refund → Bool
reserves pid r = r.payment_id == pid && is_reserving r.status

abbrev pub reserved : ℕ → Db → ℕ
reserved pid db = sum_where (reserves pid) (λ r. r.amount_cents) db.refunds

-- SELECT COALESCE(SUM(amount_cents), 0): a sum that is no int64 cannot be scanned.
unfoldable pub sum_reserved : ℕ → Db → Result ℕ × Db
sum_reserved pid db =
    if ltb (reserved pid db) int64_limit then (ok (reserved pid db), db) else (err db_error, db)

-- The amount asked for; 0 means the whole payment.
abbrev pub asked : ℤ → Payment → ℤ
asked amount p = if eqb_ℤ amount (pos 0) then pos p.amount_cents else amount

abbrev pub new_refund : Env → Draw → ℕ → ℕ → Text → ℤ → Text → Refund
new_refund env draw tid pid key amt cur = record {
  id = draw.row_id;
  tenant_id = tid;
  payment_id = pid;
  amount_cents = pos_part amt;
  currency = cur;
  status = pending;
  idempotency_key = key;
  idempotency_scope = refund_create;
  request_hash = request_fingerprint env pid amt;
  created_at = draw.now;
  updated_at = draw.now;
}

-- INSERT … ON CONFLICT DO NOTHING RETURNING, with the primary key and the CHECK constraint.
unfoldable pub insert_refund : Refund → Db → Result (Option Refund) × Db
insert_refund r db =
    if any (same_key r.tenant_id r.idempotency_key) db.refunds
    then (ok none, db)
    else if any (has_refund_id r.id) db.refunds || r.amount_cents == 0
    then (err db_error, db)
    else (ok (some r), record db { refunds = r ∷ db.refunds })

unfoldable pub replay : Env → ℕ → ℕ → Text → ℤ → Text → Tx (Refund × Bool)
replay env tid pid key amt cur = do
  row ← query λ db. find (same_key tid key) db.refunds
  stored ← or_raise no_rows row
  raise_if (not (text_eq stored.request_hash (request_fingerprint env pid amt)))
      idempotency_mismatch
  pure (
    record stored {
      tenant_id = tid;
      payment_id = pid;
      amount_cents = pos_part amt;
      currency = cur;
      idempotency_key = key;
      idempotency_scope = refund_create;
    },
    false,
  )

unfoldable pub accept : Env → Draw → ℕ → ℕ → ℤ → Text → Refund → Tx (Refund × Bool)
accept env draw tid pid amt cur r = do
  Ledger.append draw.now tid pid (requested_key env r.id) LedgerType.refund_requested
      ((refund_id, str (env.uuid_string r.id)) ∷ (amount_cents, num amt) ∷ (currency, str cur) ∷ [])
  Audit.write (some tid) refund_created (
      (refund_id, str (env.uuid_string r.id))
      ∷ (payment_id, str (env.uuid_string pid))
      ∷ (amount_cents, num amt)
      ∷ [])
  Outbox.insert_refund_settlement env draw r.id
  pure (r, true)

unfoldable pub accept_or_replay :
    Env → Draw → ℕ → ℕ → Text → ℤ → Text → Option Refund → Tx (Refund × Bool)
accept_or_replay env draw tid pid key amt cur none = replay env tid pid key amt cur
accept_or_replay env draw tid pid key amt cur (some r) = accept env draw tid pid amt cur r

-- Lines 123 to 182: the insert and what follows it.
unfoldable pub insert_tx : Env → Draw → ℕ → ℕ → Text → ℤ → Text → Tx (Refund × Bool)
unfolding accept_or_replay
insert_tx env draw tid pid key amt cur = do
  inserted ← stmt (insert_refund (new_refund env draw tid pid key amt cur))
  accept_or_replay env draw tid pid key amt cur inserted

-- Lines 96 to 121: what must hold of the payment, and of the refunds that it already has.
unfoldable pub check_tx : ℕ → ℕ → ℤ → Payment → Tx ⊤
check_tx tid pid amount p = do
  raise_if (not (p.tenant_id == tid)) not_found
  raise_if (not (is_succeeded p.status)) payment_not_refundable
  raise_if (leb_ℤ (asked amount p) (pos 0) || ltb_ℤ (pos p.amount_cents) (asked amount p))
      invalid_input
  taken ← stmt (sum_reserved pid)
  raise_if (ltb_ℤ (pos p.amount_cents) (add64 (pos taken) (asked amount p))) refund_amount_exceeded

-- The transaction of Create.
unfoldable pub create_tx : Env → Draw → ℕ → ℕ → Text → ℤ → Tx (Refund × Bool)
create_tx env draw tid pid key amount = do
  row ← query λ db. find (has_id pid) db.payments
  p ← or_raise not_found row
  check_tx tid pid amount p
  insert_tx env draw tid pid key (asked amount p) (to_upper env.upper_table (trim_space p.currency))

-- Create: the refund, and whether this call created it.
unfoldable pub create : Env → Draw → ℕ → ℕ → Text → ℤ → Tx (Refund × Bool)
create env draw tid pid key amount = do
  raise_if (is_empty (trim_space key) || ltb 200 (byte_len key)) invalid_input
  transact (create_tx env draw tid pid key amount)

-- Get.
unfoldable pub get : ℕ → ℕ → Tx Refund
get tid rid = do
  row ← query λ db. find (λ r. r.id == rid && r.tenant_id == tid) db.refunds
  or_raise not_found row

-- UPDATE refunds SET status = 'succeeded' WHERE id = $1 AND status = 'pending'.
abbrev pub to_refund : ℕ → Refund → Bool
to_refund rid r = has_refund_id rid r && is_pending r.status

abbrev pub refunded : ℕ → Refund → Refund
refunded now r = record r { status = succeeded; updated_at = now }

abbrev pub mark_refunded : ℕ → ℕ → Db → Db
mark_refunded now rid db = record db {
  refunds = update_where (to_refund rid) (refunded now) db.refunds;
}

-- The row of the join of refunds and payments.
unfoldable pub joined : ℕ → Db → Option (Refund × Payment)
joined rid db = elim (find (has_refund_id rid) db.refunds) [
  | none ↦ none
  | some r ↦ elim (find (has_id r.payment_id) db.payments) [ none ↦ none | some p ↦ some (r, p) ]
]

settle_row : Env → ℕ → ℕ → Option (Refund × Payment) → Tx ⊤
settle_row env now rid none = pure tt
settle_row env now rid (some (r, p)) =
    if not (is_pending r.status)
    then pure tt
    else if not (is_succeeded p.status)
    then raise refund_settle_status
    else do
      Ledger.append now r.tenant_id r.payment_id (refunded_key env rid) LedgerType.refund_succeeded
          ((refund_id, str (env.uuid_string rid)) ∷ [])
      exec (mark_refunded now rid)

-- SettleMockTx, in the transaction of the caller.
unfoldable pub settle_mock_tx : Env → ℕ → ℕ → Tx ⊤
unfolding settle_row
settle_mock_tx env now rid = do row ← query (joined rid); settle_row env now rid row

-- SettleMock.
unfoldable pub settle_mock : Env → ℕ → ℕ → Tx ⊤
settle_mock env now rid = transact (settle_mock_tx env now rid)
