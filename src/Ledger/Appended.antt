-- ===== src/Ledger/Appended.antt =====
-- payflow-app/internal/ledger/ledger.go: what the ledger holds after an Append.
use payflow_payments_ops_pla.Base.{
  ℕ, ◌≡◌, subst₂, inl, inr, Bool, true, Bool-cases, List, any, All, ◌==◌, ◌&&◌, ◌||◌, arith,
}
use payflow_payments_ops_pla.Text.{Text, text_eq, text_eq_sound}
use payflow_payments_ops_pla.Store.{Db, LedgerEvent, LedgerType, Object}
use payflow_payments_ops_pla.Ledger.{same_entry, insert_event}

-- One entry more, if it is not there yet.
pub record Appended (pid : ℕ) (key : Text) (before after : List LedgerEvent) : Type 0 where
  pub has :
      (p : ℕ) (k : Text)
      → any (same_entry p k) after ≡ (any (same_entry p k) before || (pid == p && text_eq key k))
  pub listed :
      (q : ℕ → Bool)
      → q pid ≡ true
      → All (λ e. q e.payment_id ≡ true) before
      → All (λ e. q e.payment_id ≡ true) after

pub insert_event-Appended :
    (now tid pid : ℕ) (key : Text) (t : LedgerType) (payload : Object) (db : Db)
    → Appended pid key db.ledger_events (insert_event now tid pid key t payload db).1.ledger_events
unfolding insert_event
insert_event-Appended now tid pid key t payload db =
    elim (Bool-cases (any (same_entry pid key) db.ledger_events)) [
      | inl there ↦ rw there (record {
        has = λ p k. elim (Bool-cases (pid == p && text_eq key k)) [
          | inl hit ↦
              let at_pid : pid ≡ p = ground arith in
              let at_key : key ≡ k = text_eq_sound key k (ground arith) in
              let same =
                subst₂ (λ x y. any (same_entry x y) db.ledger_events ≡ true) at_pid at_key there in
              ground arith
          | inr miss ↦ ground arith
        ];
        listed = λ q of_pid before. before;
      })
      | inr missing ↦
          rw missing
            (record { has = λ p k. ground arith; listed = λ q of_pid before. (of_pid, before) })
    ]
