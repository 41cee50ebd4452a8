-- ===== src/Payment.antt =====
-- payflow-app/internal/payment: create under an idempotency key, read, settle.
pub mod Safety
pub mod Runs
pub mod Made
pub mod Outcome
pub mod Idempotency
pub mod Settle
pub mod Entries
pub mod Books
use payflow_payments_ops_pla.Base.{
  ℕ, ◌<◌, Bool, true, false, not, ◌&&◌, ◌||◌, Option, none, some, [], ◌∷◌, find, any, update_where,
  ⊤, ℤ, pos, pos_part, leb_ℤ, ltb, ◌==◌, if◌then◌else◌,
}
use payflow_payments_ops_pla.Text.{Text, text_eq, is_empty, byte_len, trim_space, to_upper}
use payflow_payments_ops_pla.Store.{
  Db, Env, Draw, Payment, Status, pending, succeeded, is_pending, is_succeeded, scope_eq,
  payment_create, payment_accepted, settlement_completed, payment_created, Object, amount_cents,
  currency, payment_id, mock, num, str, flag, Result, ok, err, db_error, no_rows, invalid_input,
  not_found, idempotency_mismatch, Tx, pure, raise, raise_if, or_raise, stmt, query, exec, transact,
  ◌>>=◌, ◌>>◌,
}
use payflow_payments_ops_pla.Ledger.{accepted_key, settled_key}
use payflow_payments_ops_pla.Ledger
use payflow_payments_ops_pla.Audit
use payflow_payments_ops_pla.Outbox

-- validateCreate: whether it returns nil; each of its three errors wraps ErrInvalidInput.
unfoldable pub is_valid_create : ℤ → Text → Text → Bool
is_valid_create amount cur key =
    if is_empty (trim_space key) || ltb 200 (byte_len key)
    then false
    else if leb_ℤ amount (pos 0)
    then false
    else byte_len (trim_space cur) == 3

-- strings.ToUpper(strings.TrimSpace(currency)).
abbrev pub normalize : Env → Text → Text
normalize env raw = to_upper env.upper_table (trim_space raw)

-- RequestFingerprint.
unfoldable pub request_fingerprint : Env → ℤ → Text → Text
request_fingerprint env amount raw_currency =
    let cur = normalize env raw_currency in
    env.sha256_hex (env.json_marshal ((amount_cents, num amount) ∷ (currency, str cur) ∷ []))

-- The row that UNIQUE (tenant_id, idempotency_scope, idempotency_key) compares with.
abbrev pub same_key : ℕ → Text → Payment → Bool
same_key tid key p =
    p.tenant_id == tid
    && scope_eq p.idempotency_scope payment_create
    && text_eq p.idempotency_key key

abbrev pub has_id : ℕ → Payment → Bool
has_id pid p = p.id == pid

abbrev pub new_payment : Env → Draw → ℕ → Text → ℤ → Text → Payment
new_payment env draw tid key amount cur = record {
  id = draw.row_id;
  tenant_id = tid;
  amount_cents = pos_part amount;
  currency = cur;
  status = pending;
  idempotency_key = key;
  idempotency_scope = payment_create;
  request_hash = request_fingerprint env amount cur;
  created_at = draw.now;
  updated_at = draw.now;
}

-- INSERT … ON CONFLICT DO NOTHING RETURNING: no row on a conflict. A taken primary key, or an
-- amount that the CHECK constraint refuses, is an error.
unfoldable pub insert_payment : Payment → Db → Result (Option Payment) × Db
insert_payment p db =
    if any (same_key p.tenant_id p.idempotency_key) db.payments
    then (ok none, db)
    else if any (has_id p.id) db.payments || p.amount_cents == 0
    then (err db_error, db)
    else (ok (some p), record db { payments = p ∷ db.payments })

-- The branch for pgx.ErrNoRows: the row that won, if it has the same fingerprint.
unfoldable pub replay : Env → ℕ → Text → ℤ → Text → Tx (Payment × Bool)
replay env tid key amount cur = do
  row ← query λ db. find (same_key tid key) db.payments
  stored ← or_raise no_rows row
  let fp = request_fingerprint env amount cur
  raise_if (not (text_eq stored.request_hash fp)) idempotency_mismatch
  pure (
    record stored {
      tenant_id = tid;
      amount_cents = pos_part amount;
      currency = cur;
      idempotency_key = key;
      idempotency_scope = payment_create;
    },
    false,
  )

-- The branch for a new row: ledger, audit and outbox.
unfoldable pub accept : Env → Draw → ℕ → ℤ → Text → Payment → Tx (Payment × Bool)
accept env draw tid amount cur p = do
  Ledger.append draw.now tid p.id accepted_key payment_accepted
      ((amount_cents, num amount) ∷ (currency, str cur) ∷ [])
  Audit.write (some tid) payment_created (
      (payment_id, str (env.uuid_string p.id))
      ∷ (amount_cents, num amount)
      ∷ (currency, str cur)
      ∷ [])
  Outbox.insert_payment_settlement env draw p.id
  pure (p, true)

unfoldable pub accept_or_replay :
    Env → Draw → ℕ → Text → ℤ → Text → Option Payment → Tx (Payment × Bool)
accept_or_replay env draw tid key amount cur none = replay env tid key amount cur
accept_or_replay env draw tid key amount cur (some p) = accept env draw tid amount cur p

-- The transaction of Create.
unfoldable pub create_tx : Env → Draw → ℕ → Text → ℤ → Text → Tx (Payment × Bool)
unfolding accept_or_replay
create_tx env draw tid key amount cur = do
  inserted ← stmt (insert_payment (new_payment env draw tid key amount cur))
  accept_or_replay env draw tid key amount cur inserted

-- Create: the payment, and whether this call created it.
unfoldable pub create : Env → Draw → ℕ → Text → ℤ → Text → Tx (Payment × Bool)
create env draw tid key amount raw_currency = do
  raise_if (not (is_valid_create amount raw_currency key)) invalid_input
  transact (create_tx env draw tid key amount (normalize env raw_currency))

-- Get.
unfoldable pub get : ℕ → ℕ → Tx Payment
get tid pid = do
  row ← query λ db. find (λ p. p.id == pid && p.tenant_id == tid) db.payments
  or_raise not_found row

-- UPDATE payments SET status = 'succeeded' WHERE id = $1 AND status = 'pending'.
abbrev pub to_settle : ℕ → Payment → Bool
to_settle pid p = has_id pid p && is_pending p.status

abbrev pub settled : ℕ → Payment → Payment
settled now p = record p { status = succeeded; updated_at = now }

abbrev pub mark_succeeded : ℕ → ℕ → Db → Db
mark_succeeded now pid db = record db {
  payments = update_where (to_settle pid) (settled now) db.payments;
}

settle_row : ℕ → ℕ → Option Payment → Tx ⊤
settle_row now pid none = pure tt
settle_row now pid (some p) = if is_succeeded p.status then pure tt else do
  Ledger.append now p.tenant_id pid settled_key settlement_completed ((mock, flag true) ∷ [])
  exec (mark_succeeded now pid)

-- SettleMockTx, in the transaction of the caller.
unfoldable pub settle_mock_tx : ℕ → ℕ → Tx ⊤
unfolding settle_row
settle_mock_tx now pid = do row ← query λ db. find (has_id pid) db.payments; settle_row now pid row

-- SettleMock.
unfoldable pub settle_mock : ℕ → ℕ → Tx ⊤
settle_mock now pid = transact (settle_mock_tx now pid)
