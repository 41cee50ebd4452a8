-- ===== src/Ledger.antt =====
-- payflow-app/internal/ledger/ledger.go: the append-only ledger, deduplicated by
-- (payment_id, dedupe_key).
pub mod Unique
pub mod Appended
use payflow_payments_ops_pla.Base.{
  ℕ, ◌+◌, Bool, true, false, ◌&&◌, List, ◌∷◌, ◌++◌, reverse, any, select, ◌==◌, if◌then◌else◌,
}
use payflow_payments_ops_pla.Text.{Text, text_eq, codes}
use payflow_payments_ops_pla.Store.{Db, Env, LedgerEvent, LedgerType, Object, ok, Tx, stmt, query}
use payflow_payments_ops_pla.Store.Faults.{FaultSafe, stmt-FaultSafe}

-- The row that the constraint UNIQUE (payment_id, dedupe_key) compares with.
abbrev pub same_entry : ℕ → Text → LedgerEvent → Bool
same_entry payment_id dedupe_key e = e.payment_id == payment_id && text_eq e.dedupe_key dedupe_key

-- INSERT … ON CONFLICT (payment_id, dedupe_key) DO NOTHING. The sequence moves on either way.
unfoldable pub insert_event : ℕ → ℕ → ℕ → Text → LedgerType → Object → Db → Bool × Db
insert_event now tenant_id payment_id dedupe_key event_type payload db =
    let row : LedgerEvent = record {
      id = db.next_event;
      tenant_id = tenant_id;
      payment_id = payment_id;
      dedupe_key = dedupe_key;
      event_type = event_type;
      payload = payload;
      created_at = now;
    } in
    if any (same_entry payment_id dedupe_key) db.ledger_events
    then (false, record db { next_event = db.next_event + 1 })
    else (
      true,
      record db { next_event = db.next_event + 1; ledger_events = row ∷ db.ledger_events },
    )

-- Append: whether a row was inserted.
unfoldable pub append : ℕ → ℕ → ℕ → Text → LedgerType → Object → Tx Bool
append now tenant_id payment_id dedupe_key event_type payload = stmt λ db.
    let (inserted, db') = insert_event now tenant_id payment_id dedupe_key event_type payload db in
    (ok inserted, db')

-- ListByPayment: `ORDER BY id ASC` is the order of insertion, and the table has the newest first.
unfoldable pub list_by_payment : ℕ → ℕ → Tx (List LedgerEvent)
list_by_payment tenant_id payment_id = query λ db.
    reverse (select (λ e. e.tenant_id == tenant_id && e.payment_id == payment_id) db.ledger_events)

-- LedgerPaymentAccepted and LedgerSettlementCompleted serve as dedupe keys too.
abbrev pub accepted_key : Text
accepted_key = codes "payment.accepted"

abbrev pub settled_key : Text
settled_key = codes "settlement.completed"

-- "refund:"+id.String()+":requested" and "refund:"+id.String()+":succeeded".
abbrev pub requested_key : Env → ℕ → Text
requested_key env refund_id = codes "refund:" ++ (env.uuid_string refund_id ++ codes ":requested")

abbrev pub refunded_key : Env → ℕ → Text
refunded_key env refund_id = codes "refund:" ++ (env.uuid_string refund_id ++ codes ":succeeded")

pub append-FaultSafe :
    (now tenant_id payment_id : ℕ) (key : Text) (t : LedgerType) (payload : Object)
    → FaultSafe (append now tenant_id payment_id key t payload)
unfolding append
append-FaultSafe now tenant_id payment_id key t payload = search stmt-FaultSafe
