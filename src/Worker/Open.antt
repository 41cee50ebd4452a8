-- ===== src/Worker/Open.antt =====
-- How many rows of the outbox are open (payflow-app/cmd/worker/main.go).
use payflow_payments_ops_pla.Base.{
  ℕ, ◌+◌, ◌≡◌, refl, sym, subst, inl, inr, Bool, true, false, not, Bool-cases, none, some, List, [],
  ◌∷◌, find, any, update_where-none, count_where, Distinct, ◌==◌, ◌&&◌, arith,
}
use payflow_payments_ops_pla.Store.{OutboxRow}
use payflow_payments_ops_pla.Worker.{is_open, oldest}
use payflow_payments_ops_pla.Worker.Rows.{has_row_id, row_id, closed, older-cases}

abbrev pub count_open : List OutboxRow → ℕ
count_open rows = count_where is_open rows

module _ (locked : ℕ → Bool) (free : (id : ℕ) → locked id ≡ false) where
  pub oldest-none : (rows : List OutboxRow) → oldest locked rows ≡ none → count_open rows ≡ 0
  unfolding oldest
  oldest-none [] e = refl
  oldest-none (x ∷ rows) e = ground (arith, free x.id, oldest-none rows)

  pub oldest-is_open :
      (row : OutboxRow) (rows : List OutboxRow) → oldest locked rows ≡ some row → is_open row ≡ true
  unfolding oldest
  oldest-is_open row [] e = absurd (ground arith)
  oldest-is_open row (x ∷ rows) e = elim (Bool-cases (is_open x && not (locked x.id))) [
    | inl candidate ↦ elim (older-cases x row (oldest locked rows) (ground arith)) [
      | inl same ↦ subst (λ r. is_open r ≡ true) same (ground arith)
      | inr rest ↦ oldest-is_open row rows rest
    ]
    | inr skipped ↦ oldest-is_open row rows (ground arith)
  ]

pub count_open-closed :
    (now : ℕ) (row : OutboxRow) (rows : List OutboxRow)
    → Distinct row_id rows
    → find (has_row_id row.id) rows ≡ some row
    → is_open row ≡ true
    → count_open (closed now row.id rows) + 1 ≡ count_open rows
count_open-closed now row [] distinct found opened = absurd (ground arith)
count_open-closed now row (x ∷ rows) (fresh, distinct) found opened =
    elim (Bool-cases (x.id == row.id)) [
      | inl same ↦
          let here : x.id ≡ row.id = ground arith in
          let is_row : x ≡ row = ground arith in
          let free = subst (λ i. any (has_row_id i) rows ≡ false) here fresh in
          let kept =
            update_where-none (has_row_id row.id) (λ r. record r { processed_at = some now }) rows
              free in
          let opened_x = subst (λ r. is_open r ≡ true) (sym is_row) opened in
          rw (same, kept, opened_x) (omega arith)
      | inr differ ↦
          let rest = count_open-closed now row rows distinct (ground arith) opened in
          rw differ (omega (arith, rest))
    ]

-- A test that only open rows pass.
pub none_asks :
    (q : OutboxRow → Bool) (rows : List OutboxRow)
    → ((row : OutboxRow) → q row ≡ true → is_open row ≡ true)
    → count_open rows ≡ 0
    → any q rows ≡ false
none_asks q [] only_open e = refl
none_asks q (row ∷ rows) only_open e = elim (Bool-cases (q row)) [
  | inl asked ↦ let opened = only_open row asked in absurd (ground (arith, opened))
  | inr not_asked ↦ ground (arith, none_asks q rows only_open)
]
