-- ===== src/System/Books/Histories.antt =====
-- The ledger against the payments, over every history of the two programs.
use payflow_payments_ops_pla.Base.{
  ⊤, ℕ, ◌≡◌, ◌≤◌, refl, sym, ap, ◌∙◌, subst, subst₂, inl, inr, Bool, Option-cases, some, List, [],
  ◌∷◌, find, find-some-any, any, count_where, ℤ, if◌then◌else◌, arith,
}
use payflow_payments_ops_pla.Text.{Text, to_upper, trim_space}
use payflow_payments_ops_pla.Store.{Db, Env, Draw, Payment, Refund, is_succeeded, ok}
use payflow_payments_ops_pla.Store.Faults.{clean}
use payflow_payments_ops_pla.Store.Keeps.{Keeps}
use payflow_payments_ops_pla.Ledger.{
  same_entry, accepted_key, settled_key, requested_key, refunded_key,
}
use payflow_payments_ops_pla.Payment.{has_id, same_key, normalize}
use payflow_payments_ops_pla.Payment
use payflow_payments_ops_pla.Payment.Safety as PaymentSafety
use payflow_payments_ops_pla.Payment.Runs as PaymentRuns
use payflow_payments_ops_pla.Payment.Books as PaymentBooks
use payflow_payments_ops_pla.Refund
use payflow_payments_ops_pla.Refund.Safety as RefundSafety
use payflow_payments_ops_pla.Refund.Runs as RefundRuns
use payflow_payments_ops_pla.Refund.Books as RefundBooks
use payflow_payments_ops_pla.System.Kept.{Kept, Reach-Kept}
use payflow_payments_ops_pla.Worker.Keeps.{outbox_tx-Keeps}
use payflow_payments_ops_pla.System.{Reach, empty_db}
use payflow_payments_ops_pla.System.Entries.{ledger_unique}
use payflow_payments_ops_pla.System.Books.{Booked, payment-Booked, other-Booked, settled-Booked}

abbrev LedgerBooked : Db → Type 0
LedgerBooked db = Booked db.payments db.ledger_events

settle_payment-Booked : (now pid : ℕ) → Keeps LedgerBooked (Payment.settle_mock_tx now pid)
settle_payment-Booked now pid = record {
  safe = PaymentSafety.settle_mock_tx-FaultSafe now pid;
  keeps = λ db u db' run before. elim (PaymentBooks.settle_mock_tx-books now pid db db' u run) [
    | inl same ↦ subst₂ Booked (sym same.0) (sym same.1) before
    | inr (p, found, unpaid, marked, entry) ↦
        subst (λ ps. Booked ps db'.ledger_events) (sym marked)
          (settled-Booked db.payments db.ledger_events db'.ledger_events before now pid p found
            unpaid entry)
  ];
}

settle_refund-Booked :
    (env : Env) (now rid : ℕ) → Keeps LedgerBooked (Refund.settle_mock_tx env now rid)
settle_refund-Booked env now rid = record {
  safe = RefundSafety.settle_mock_tx-FaultSafe env now rid;
  keeps = λ db u db' run before.
      let same_payments = (RefundRuns.settle_mock_tx-cases env now rid db db' u run).0 in
      subst (λ ps. Booked ps db'.ledger_events) (sym same_payments)
        (elim (RefundBooks.settle_mock_tx-books env now rid db db' u run) [
          | inl same ↦ subst (Booked db.payments) (sym same) before
          | inr (pid, p, found, entry) ↦
              other-Booked db.payments db.ledger_events db'.ledger_events before pid
                (refunded_key env rid) (find-some-any (has_id pid) db.payments p found) refl refl
                entry
        ]);
}

create_payment_tx-Booked :
    (env : Env) (draw : Draw) (tid : ℕ) (key : Text) (amount : ℤ) (cur : Text) (db db' : Db)
    (x : Payment × Bool)
    → clean (Payment.create_tx env draw tid key amount cur) db ≡ (ok x, db')
    → LedgerBooked db
    → LedgerBooked db'
create_payment_tx-Booked env draw tid key amount cur db db' (p, created) run before =
    elim (Option-cases (find (same_key tid key) db.payments)) [
      | inl missing ↦
          let fresh =
            PaymentRuns.create_tx-fresh env draw tid key amount cur db p created db' missing run in
          let new = PaymentRuns.accepted env draw tid key amount cur db in
          let entry =
            PaymentBooks.create_tx-Appended env draw tid key amount cur db db' (p, created) missing
              run in
          subst (λ ps. Booked ps db'.ledger_events) (sym fresh.4)
            (payment-Booked db.payments db.ledger_events db'.ledger_events before new fresh.3 refl
              refl entry)
      | inr (q, there) ↦
          let again =
            PaymentRuns.create_tx-found env draw tid key amount cur db q p created db' there run in
          subst LedgerBooked (sym again.2) before
    ]

create_refund_tx-Booked :
    (env : Env) (draw : Draw) (tid pid : ℕ) (key : Text) (amount : ℤ) (db db' : Db)
    (x : Refund × Bool)
    → clean (Refund.create_tx env draw tid pid key amount) db ≡ (ok x, db')
    → LedgerBooked db
    → LedgerBooked db'
create_refund_tx-Booked env draw tid pid key amount db db' (r, created) run before =
    let (p, found, checked, inside) =
      RefundRuns.create_tx-success env draw tid pid key amount db (r, created) db' run in
    let amt = Refund.asked amount p in
    let cur = to_upper env.upper_table (trim_space p.currency) in
    elim (Option-cases (find (Refund.same_key tid key) db.refunds)) [
      | inl missing ↦
          let fresh =
            RefundRuns.insert_tx-fresh env draw tid pid key amt cur db r created db' missing
              inside in
          let entry =
            RefundBooks.insert_tx-Appended env draw tid pid key amt cur db db' (r, created) missing
              inside in
          subst (λ ps. Booked ps db'.ledger_events) (sym fresh.3)
            (other-Booked db.payments db.ledger_events db'.ledger_events before pid
              (requested_key env draw.row_id) (find-some-any (has_id pid) db.payments p found) refl
              refl entry)
      | inr (q, there) ↦
          let same =
            RefundRuns.insert_tx-found env draw tid pid key amt cur db q r created db' there
              inside in
          subst LedgerBooked (sym same.2) before
    ]

LedgerBooked-Kept : (env : Env) → Kept env (λ db. ⊤) LedgerBooked
LedgerBooked-Kept env = record {
  pays = λ draw tid key amount cur db db' x small run known before.
      create_payment_tx-Booked env draw tid key amount cur db db' x run before;
  refunds = λ draw tid pid key amount db db' x run known before.
      create_refund_tx-Booked env draw tid pid key amount db db' x run before;
  settles_payment =
      λ now pid db db' run known before. (settle_payment-Booked now pid).keeps db tt db' run before;
  settles_refund = λ now rid db db' run known before.
      (settle_refund-Booked env now rid).keeps db tt db' run before;
  drains = λ locked now db db' x run known before.
      (outbox_tx-Keeps LedgerBooked env now (settle_payment-Booked now)
          (settle_refund-Booked env now) (λ id db h. h) locked).keeps
        db x db' run before;
  besides = λ db db' same before. subst (λ c. Booked c.payments c.ledger_events) (sym same) before;
}

empty_db-Booked : LedgerBooked empty_db
empty_db-Booked = record {
  listed = tt;
  accepted = λ pid p found. absurd (ground arith);
  settlement = λ pid p found. absurd (ground arith);
  two_states = λ pid p found. absurd (ground arith);
}

any-count :
    {A : Type 0} (q : A → Bool) (xs : List A)
    → count_where q xs ≤ 1
    → count_where q xs ≡ (if any q xs then 1 else 0)
any-count q [] few = refl
any-count q (x ∷ xs) few =
    let rest : count_where q xs ≤ 1 = ground arith in ground (arith, any-count q xs rest)

-- After any history of creates below 2 ^ 62 cents, refunds, settlements, outbox rounds and transactions
-- on the other tables, with any failures of the database, the ledger has one entry for the acceptance of
-- each payment, and one for its settlement if it succeeded, and none if it did not.
pub ledger_books :
    (env : Env) (db : Db) (pid : ℕ) (p : Payment)
    → Reach env empty_db db
    → find (has_id pid) db.payments ≡ some p
    → (count_where (same_entry pid accepted_key) db.ledger_events ≡ 1)
      × (count_where (same_entry pid settled_key) db.ledger_events
          ≡ (if is_succeeded p.status then 1 else 0))
ledger_books env db pid p r found =
    let booked =
      (Reach-Kept (LedgerBooked-Kept env) (λ db db' s known. tt) tt empty_db-Booked r).1 in
    let es = db.ledger_events in
    (
      any-count (same_entry pid accepted_key) es (ledger_unique env db pid accepted_key r)
          ∙ ap (λ (b : Bool). if b then 1 else 0) (booked.accepted pid p found),
      any-count (same_entry pid settled_key) es (ledger_unique env db pid settled_key r)
          ∙ ap (λ (b : Bool). if b then 1 else 0) (booked.settlement pid p found),
    )
