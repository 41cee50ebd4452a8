-- ===== src/System/Waiting.antt =====
-- The rows of the outbox for what waits to be settled: a pending payment
-- (payflow-app/internal/payment/payment.go) or refund (payflow-app/internal/refund/refund.go).
pub mod Paid
pub mod Steps
pub mod Stranded
pub mod Histories
use payflow_payments_ops_pla.Base.{
  ℕ, ◌≡◌, refl, sym, ap, subst, inl, inr, true, false, Bool-cases, Option-cases, none, some, List,
  ◌∷◌, find, find_sound, any, update_where, find-update, Distinct, update-Distinct, find-none-any,
  any-false-find, All, All-map, All-update, ◌==◌, ◌&&◌, not, Bool, false, arith,
}
use payflow_payments_ops_pla.Text.{text_eq_refl}
use payflow_payments_ops_pla.Store.{Db, Env, Payment, Refund, OutboxRow, is_pending, is_succeeded}
use payflow_payments_ops_pla.Payment.{has_id, to_settle, settled}
use payflow_payments_ops_pla.Refund.{has_refund_id, to_refund, refunded}
use payflow_payments_ops_pla.Worker.{is_open}
use payflow_payments_ops_pla.System.Waiting.Paid.{is_paid, settled_paid, more_paid}
use payflow_payments_ops_pla.Worker.Rows.{
  has_row_id, row_id, closed, closed-Distinct, any-closed, oldest-find,
}
use payflow_payments_ops_pla.Worker.Asks.{asks_payment, asks_refund}

-- A row that is processed, or asks for one settlement.
pub data RowAsks (env : Env) (row : OutboxRow) : Type 0 where
  finished : is_open row ≡ false → RowAsks env row
  of_payment : (pid : ℕ) → asks_payment env pid row ≡ true → RowAsks env row
  of_refund : (rid : ℕ) → asks_refund env rid row ≡ true → RowAsks env row

-- An open row asks for the settlement of each pending payment and of each pending refund; it asks for
-- nothing else. Refunds are of settled payments.
pub record Complete (env : Env) (ps : List Payment) (rs : List Refund) (rows : List OutboxRow)
    : Type 0 where
  pub payment_ids : Distinct (λ p. p.id) ps
  pub refund_ids : Distinct (λ r. r.id) rs
  pub distinct : Distinct row_id rows
  pub payments :
      (pid : ℕ) (p : Payment)
      → find (has_id pid) ps ≡ some p
      → is_pending p.status ≡ true
      → any (asks_payment env pid) rows ≡ true
  pub refunds :
      (rid : ℕ) (r : Refund)
      → find (has_refund_id rid) rs ≡ some r
      → is_pending r.status ≡ true
      → any (asks_refund env rid) rows ≡ true
  pub sound : All (RowAsks env) rows
  pub paid : All (λ r. is_paid ps r.payment_id ≡ true) rs

abbrev pub OutboxComplete : Env → Db → Type 0
OutboxComplete env db = Complete env db.payments db.refunds db.async_outbox

module _ (env : Env) (ps : List Payment) (rs : List Refund) (rows : List OutboxRow)
    (before : Complete env ps rs rows) where
  pub settle_payment-Complete :
      (now k : ℕ) → Complete env (update_where (to_settle k) (settled now) ps) rs rows
  settle_payment-Complete now k = record {
    sound = before.sound;
    paid = settled_paid ps now k rs before.paid;
    payment_ids =
        update-Distinct (λ p. p.id) (to_settle k) (settled now) ps (λ q. refl) before.payment_ids;
    refund_ids = before.refund_ids;
    distinct = before.distinct;
    payments = λ pid p found waiting.
        let updated = find-update (has_id pid) (to_settle k) (settled now) ps (λ q. refl) in
        elim (Option-cases (find (has_id pid) ps)) [
          | inl missing ↦ absurd (ground (arith, updated))
          | inr (q, there) ↦ before.payments pid q there (ground (arith, updated))
        ];
    refunds = before.refunds;
  }

  pub settle_refund-Complete :
      (now k : ℕ) → Complete env ps (update_where (to_refund k) (refunded now) rs) rows
  settle_refund-Complete now k = record {
    sound = before.sound;
    paid =
        All-update (λ r. is_paid ps r.payment_id ≡ true) (to_refund k) (refunded now) rs
          (λ r hit was. was) before.paid;
    payment_ids = before.payment_ids;
    refund_ids =
        update-Distinct (λ r. r.id) (to_refund k) (refunded now) rs (λ q. refl) before.refund_ids;
    distinct = before.distinct;
    payments = before.payments;
    refunds = λ rid r found waiting.
        let updated = find-update (has_refund_id rid) (to_refund k) (refunded now) rs (λ q. refl) in
        elim (Option-cases (find (has_refund_id rid) rs)) [
          | inl missing ↦ absurd (ground (arith, updated))
          | inr (q, there) ↦ before.refunds rid q there (ground (arith, updated))
        ];
  }

  module _ (row : OutboxRow) (fresh : any (has_row_id row.id) rows ≡ false) where
    -- A new payment comes with a row that asks for it.
    pub payment-Complete :
        (p : Payment)
        → any (has_id p.id) ps ≡ false
        → asks_payment env p.id row ≡ true
        → Complete env (p ∷ ps) rs (row ∷ rows)
    payment-Complete p new asked = record {
      sound = (of_payment p.id asked, before.sound);
      paid = more_paid ps p new rs before.paid;
      payment_ids = (new, before.payment_ids);
      refund_ids = before.refund_ids;
      distinct = (fresh, before.distinct);
      payments = λ pid q found waiting. elim (Bool-cases (p.id == pid)) [
        | inl hit ↦
            let here : p.id ≡ pid = ground arith in
            let asked_here = subst (λ x. asks_payment env x row ≡ true) here asked in ground arith
        | inr miss ↦
            let asked_before = before.payments pid q (ground arith) waiting in
            ground (arith, asked_before)
      ];
      refunds = λ rid r found waiting.
          let asked_before = before.refunds rid r found waiting in ground arith;
    }

    pub refund-Complete :
        (r : Refund)
        → any (has_refund_id r.id) rs ≡ false
        → is_paid ps r.payment_id ≡ true
        → asks_refund env r.id row ≡ true
        → Complete env ps (r ∷ rs) (row ∷ rows)
    refund-Complete r new now_paid asked = record {
      sound = (of_refund r.id asked, before.sound);
      paid = (now_paid, before.paid);
      payment_ids = before.payment_ids;
      refund_ids = (new, before.refund_ids);
      distinct = (fresh, before.distinct);
      payments = λ pid p found waiting.
          let asked_before = before.payments pid p found waiting in ground arith;
      refunds = λ rid q found waiting. elim (Bool-cases (r.id == rid)) [
        | inl hit ↦
            let here : r.id ≡ rid = ground arith in
            let asked_here = subst (λ x. asks_refund env x row ≡ true) here asked in ground arith
        | inr miss ↦
            let asked_before = before.refunds rid q (ground arith) waiting in
            ground (arith, asked_before)
      ];
    }

  -- A row is closed when nothing that it asks for is pending.
  pub close-Complete :
      (now : ℕ) (row : OutboxRow)
      → find (has_row_id row.id) rows ≡ some row
      → ((pid : ℕ) (p : Payment)
          → asks_payment env pid row ≡ true
          → find (has_id pid) ps ≡ some p
          → is_pending p.status ≡ false)
      → ((rid : ℕ) (r : Refund)
          → asks_refund env rid row ≡ true
          → find (has_refund_id rid) rs ≡ some r
          → is_pending r.status ≡ false)
      → Complete env ps rs (closed now row.id rows)
  close-Complete now row there payment_done refund_done = record {
    sound =
        All-update (RowAsks env) (has_row_id row.id) (λ r. record r { processed_at = some now })
          rows (λ r hit was. finished refl) before.sound;
    paid = before.paid;
    payment_ids = before.payment_ids;
    refund_ids = before.refund_ids;
    distinct = closed-Distinct now row.id rows before.distinct;
    payments = λ pid p found waiting. elim (Bool-cases (asks_payment env pid row)) [
      | inl asked ↦ let over = payment_done pid p asked found in absurd (ground arith)
      | inr other ↦
          any-closed (asks_payment env pid) now row rows before.distinct there other
            (before.payments pid p found waiting)
    ];
    refunds = λ rid r found waiting. elim (Bool-cases (asks_refund env rid row)) [
      | inl asked ↦ let over = refund_done rid r asked found in absurd (ground arith)
      | inr other ↦
          any-closed (asks_refund env rid) now row rows before.distinct there other
            (before.refunds rid r found waiting)
    ];
  }
