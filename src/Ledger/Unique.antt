-- ===== src/Ledger/Unique.antt =====
-- payflow-app/internal/ledger/ledger.go: an entry is appended at most once.
use payflow_payments_ops_pla.Base.{
  ℕ, ◌≤◌, ◌≡◌, refl, subst, subst₂, inl, inr, false, Option, List, [], ◌∷◌, any, count_where,
  Bool-cases, arith,
}
use payflow_payments_ops_pla.Text.{Text, text_eq_sound}
use payflow_payments_ops_pla.Store.{
  Db, Env, Draw, LedgerEvent, LedgerType, AuditType, Object, Result, ok, stmt,
}
use payflow_payments_ops_pla.Store.Keeps.{Keeps, stmt-Keeps, exec-Keeps}
use payflow_payments_ops_pla.Audit.{write}
use payflow_payments_ops_pla.Outbox.{insert_payment_settlement, insert_refund_settlement}
use payflow_payments_ops_pla.Ledger.{same_entry, insert_event, append}

-- No two entries share a payment and a dedupe key.
abbrev pub Unique : List LedgerEvent → Type 0
Unique es = (pid : ℕ) (key : Text) → count_where (same_entry pid key) es ≤ 1

abbrev pub LedgerUnique : Db → Type 0
LedgerUnique db = Unique db.ledger_events

any-false-count :
    (pid : ℕ) (key : Text) (es : List LedgerEvent)
    → any (same_entry pid key) es ≡ false
    → count_where (same_entry pid key) es ≡ 0
any-false-count pid key [] h = refl
any-false-count pid key (e ∷ es) h = ground (arith, any-false-count pid key es)

cons-Unique :
    (e : LedgerEvent) (es : List LedgerEvent)
    → any (same_entry e.payment_id e.dedupe_key) es ≡ false
    → Unique es
    → Unique (e ∷ es)
cons-Unique e es fresh before pid key = elim (Bool-cases (same_entry pid key e)) [
  | inl hit ↦
      let pid_of : e.payment_id ≡ pid = ground arith in
      let key_of : e.dedupe_key ≡ key = text_eq_sound e.dedupe_key key (ground arith) in
      let free : any (same_entry pid key) es ≡ false =
        subst₂ (λ p k. any (same_entry p k) es ≡ false) pid_of key_of fresh in
      rw (hit, any-false-count pid key es free) (omega arith)
  | inr miss ↦ rw miss (omega (arith, before pid key))
]

pub insert_event-Unique :
    (now tenant_id payment_id : ℕ) (key : Text) (t : LedgerType) (payload : Object) (db : Db)
    → LedgerUnique db
    → LedgerUnique (insert_event now tenant_id payment_id key t payload db).1
unfolding insert_event
insert_event-Unique now tenant_id payment_id key t payload db before =
    elim (Bool-cases (any (same_entry payment_id key) db.ledger_events)) [
      | inl there ↦ rw there before
      | inr missing ↦ rw missing (
          cons-Unique
            (record {
              id = db.next_event;
              tenant_id = tenant_id;
              payment_id = payment_id;
              dedupe_key = key;
              event_type = t;
              payload = payload;
              created_at = now;
            })
            db.ledger_events missing before)
    ]

pub append-Unique :
    (now tenant_id payment_id : ℕ) (key : Text) (t : LedgerType) (payload : Object)
    → Keeps LedgerUnique (append now tenant_id payment_id key t payload)
unfolding append
append-Unique now tenant_id payment_id key t payload =
    stmt-Keeps LedgerUnique _ λ db a db' run before.
      let same : (insert_event now tenant_id payment_id key t payload db).1 ≡ db' = ground arith in
      subst LedgerUnique same (insert_event-Unique now tenant_id payment_id key t payload db before)

-- A statement that leaves the ledger alone.
pub apart :
    {A : Type 0} (q : Db → Result A × Db)
    → ((db : Db) (a : A) (db' : Db) → q db ≡ (ok a, db') → db.ledger_events ≡ db'.ledger_events)
    → Keeps LedgerUnique (stmt q)
apart q same = stmt-Keeps LedgerUnique q λ db a db' run before.
    subst (λ es. (pid : ℕ) (key : Text) → count_where (same_entry pid key) es ≤ 1)
      (same db a db' run) before

pub write-Unique :
    (tid : Option ℕ) (t : AuditType) (o : Object) → Keeps LedgerUnique (write tid t o)
unfolding write
write-Unique tid t o = exec-Keeps LedgerUnique _ λ db before. before

pub payment_outbox-Unique :
    (env : Env) (draw : Draw) (pid : ℕ)
    → Keeps LedgerUnique (insert_payment_settlement env draw pid)
unfolding insert_payment_settlement
payment_outbox-Unique env draw pid = apart _ λ db a db' run. ground arith

pub refund_outbox-Unique :
    (env : Env) (draw : Draw) (rid : ℕ) → Keeps LedgerUnique (insert_refund_settlement env draw rid)
unfolding insert_refund_settlement
refund_outbox-Unique env draw rid = apart _ λ db a db' run. ground arith
