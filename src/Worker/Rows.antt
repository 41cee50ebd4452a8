-- ===== src/Worker/Rows.antt =====
-- The rows of the outbox: the oldest open one (payflow-app/cmd/worker/main.go), and closing it.
use payflow_payments_ops_pla.Base.{
  ℕ, ◌≡◌, refl, sym, subst, inl, inr, ◌⊎◌, Bool, true, false, Bool-cases, Option, none, some, List,
  [], ◌∷◌, find, any, Distinct, update-Distinct, update_where, update_where-none, find-some-any,
  ◌==◌, ◌&&◌, not, ltb, arith,
}
use payflow_payments_ops_pla.Store.{OutboxRow}
use payflow_payments_ops_pla.Worker.{is_open, older, oldest}

abbrev pub has_row_id : ℕ → OutboxRow → Bool
has_row_id id row = row.id == id

abbrev pub row_id : OutboxRow → ℕ
row_id row = row.id

abbrev pub closed : ℕ → ℕ → List OutboxRow → List OutboxRow
closed now id rows = update_where (has_row_id id) (λ r. record r { processed_at = some now }) rows

pub older-cases :
    (x row : OutboxRow) (rest : Option OutboxRow)
    → older x rest ≡ row
    → ((x ≡ row)) ⊎ (rest ≡ some row)
older-cases x row none e = inl e
older-cases x row (some y) e = elim (Bool-cases (ltb x.created_at y.created_at)) [
  | inl before ↦ inl (ground arith)
  | inr after ↦ inr (ground arith)
]

-- The oldest row is the row of its id.
pub oldest-find :
    (locked : ℕ → Bool) (row : OutboxRow) (rows : List OutboxRow)
    → Distinct row_id rows
    → oldest locked rows ≡ some row
    → find (has_row_id row.id) rows ≡ some row
unfolding oldest
oldest-find locked row [] distinct e = absurd (ground arith)
oldest-find locked row (x ∷ rows) (fresh, distinct) e =
    let later : oldest locked rows ≡ some row → find (has_row_id row.id) (x ∷ rows) ≡ some row =
      λ h. elim (Bool-cases (x.id == row.id)) [
        | inl same ↦
            let here : x.id ≡ row.id = ground arith in
            let there =
              find-some-any (has_row_id row.id) rows row (oldest-find locked row rows distinct h) in
            let free = subst (λ i. any (has_row_id i) rows ≡ false) here fresh in
            absurd (ground arith)
        | inr differ ↦ rw differ (oldest-find locked row rows distinct h)
      ] in
    elim (Bool-cases (is_open x && not (locked x.id))) [
      | inl candidate ↦ elim (older-cases x row (oldest locked rows) (ground arith)) [
        | inl same ↦ ground (arith, same)
        | inr rest ↦ later rest
      ]
      | inr skipped ↦ later (ground arith)
    ]

pub closed-Distinct :
    (now id : ℕ) (rows : List OutboxRow)
    → Distinct row_id rows
    → Distinct row_id (closed now id rows)
closed-Distinct now id rows distinct =
    update-Distinct row_id (has_row_id id) (λ r. record r { processed_at = some now }) rows
      (λ r. refl) distinct

-- Closing a row that fails a test leaves the rows that pass it.
pub any-closed :
    (q : OutboxRow → Bool) (now : ℕ) (row : OutboxRow) (rows : List OutboxRow)
    → Distinct row_id rows
    → find (has_row_id row.id) rows ≡ some row
    → q row ≡ false
    → any q rows ≡ true
    → any q (closed now row.id rows) ≡ true
any-closed q now row [] distinct found fails passes = absurd (ground arith)
any-closed q now row (x ∷ rows) (fresh, distinct) found fails passes =
    elim (Bool-cases (x.id == row.id)) [
      | inl same ↦
          let here : x.id ≡ row.id = ground arith in
          let is_row : x ≡ row = ground arith in
          let free = subst (λ i. any (has_row_id i) rows ≡ false) here fresh in
          let kept =
            update_where-none (has_row_id row.id) (λ r. record r { processed_at = some now }) rows
              free in
          let fails_x = subst (λ r. q r ≡ false) (sym is_row) fails in ground (arith, kept)
      | inr differ ↦ ground (arith, differ, any-closed q now row rows distinct)
    ]
