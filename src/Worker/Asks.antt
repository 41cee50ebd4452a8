-- ===== src/Worker/Asks.antt =====
-- What a row of the outbox asks tryProcessOutbox (payflow-app/cmd/worker/main.go) for.
use payflow_payments_ops_pla.Base.{
  ℕ, ◌≡◌, refl, sym, ◌∙◌, subst, inl, inr, ◌⊎◌, Bool, true, false, Option-cases, none, some, [],
  ◌∷◌, ◌&&◌, ⊤, arith,
}
use payflow_payments_ops_pla.Text.{Text, text_eq, text_eq_sound}
use payflow_payments_ops_pla.Store.{
  Db, Env, OutboxRow, OutboxKind, payment_settlement, refund_settlement, unknown_kind, Object,
  Field, str, num, flag, Result, ok, stmt,
}
use payflow_payments_ops_pla.Store.Faults.{FaultSafe, clean, bind-ok}
use payflow_payments_ops_pla.Payment
use payflow_payments_ops_pla.Payment.Safety as PaymentSafety
use payflow_payments_ops_pla.Refund
use payflow_payments_ops_pla.Refund.Safety as RefundSafety
use payflow_payments_ops_pla.Worker.{
  Followup, is_open, is_payment_id, is_refund_id, parse_id, handle, oldest, mark_processed,
  process_row, outbox_tx,
}
use payflow_payments_ops_pla.Worker.Keeps.{parse_id-Keeps, handle-Keeps}

-- A payload with one field, which holds this text.
abbrev pub names : (Field → Bool) → Text → Object → Bool
names wanted t [] = false
names wanted t ((f, num n) ∷ rest) = false
names wanted t ((f, flag b) ∷ rest) = false
names wanted t ((f, str u) ∷ []) = wanted f && text_eq u t
names wanted t ((f, str u) ∷ x ∷ rest) = false

abbrev pub is_payment_kind : OutboxKind → Bool
is_payment_kind payment_settlement = true
is_payment_kind refund_settlement = false
is_payment_kind unknown_kind = false

abbrev pub is_refund_kind : OutboxKind → Bool
is_refund_kind payment_settlement = false
is_refund_kind refund_settlement = true
is_refund_kind unknown_kind = false

-- The row is open and asks for the settlement of this payment, or of this refund.
abbrev pub asks_payment : Env → ℕ → OutboxRow → Bool
asks_payment env pid row =
    is_open row && is_payment_kind row.kind && names is_payment_id (env.uuid_string pid) row.payload

abbrev pub asks_refund : Env → ℕ → OutboxRow → Bool
asks_refund env rid row =
    is_open row && is_refund_kind row.kind && names is_refund_id (env.uuid_string rid) row.payload

pub parse_id-names :
    (env : Env) (wanted : Field → Bool) (id : ℕ) (payload : Object) (db : Db)
    → env.uuid_parse (env.uuid_string id) ≡ some id
    → names wanted (env.uuid_string id) payload ≡ true
    → clean (parse_id env wanted payload) db ≡ (ok id, db)
unfolding parse_id
parse_id-names env wanted id [] db parsed h = absurd (ground arith)
parse_id-names env wanted id ((f, num n) ∷ rest) db parsed h = absurd (ground arith)
parse_id-names env wanted id ((f, flag b) ∷ rest) db parsed h = absurd (ground arith)
parse_id-names env wanted id ((f, str u) ∷ x ∷ rest) db parsed h = absurd (ground arith)
parse_id-names env wanted id ((f, str u) ∷ []) db parsed h =
    let hit : wanted f ≡ true = ground arith in
    let same : u ≡ env.uuid_string id = text_eq_sound u (env.uuid_string id) (ground arith) in
    rw (hit, same, parsed) refl

pub parse_id-same :
    (env : Env) (wanted : Field → Bool) (payload : Object) (db db' : Db) (id : ℕ)
    → clean (parse_id env wanted payload) db ≡ (ok id, db')
    → db' ≡ db
parse_id-same env wanted payload db db' id run =
    (parse_id-Keeps (λ d. d ≡ db) env wanted payload).keeps db id db' run refl

pub handle-FaultSafe :
    (env : Env) (now : ℕ) (row : OutboxRow) → FaultSafe (handle env now row.kind row.payload)
handle-FaultSafe env now row =
    (handle-Keeps (λ _. ⊤) env now
      (λ pid. record {
        safe = PaymentSafety.settle_mock_tx-FaultSafe now pid;
        keeps = λ _ _ _ _ _. tt;
      })
      (λ rid. record {
        safe = RefundSafety.settle_mock_tx-FaultSafe env now rid;
        keeps = λ _ _ _ _ _. tt;
      })
      (λ _ _ _. tt) row.kind row.payload).safe

-- What a round did for its row before it marked it: the settlement of the one thing it asks for.
pub data Handled (env : Env) (now : ℕ) (db mid : Db) (row : OutboxRow) : Type 0 where
  for_payment :
      (pid : ℕ)
      → ((k : ℕ) → asks_payment env k row ≡ true → k ≡ pid)
      → ((k : ℕ) → asks_refund env k row ≡ false)
      → clean (Payment.settle_mock_tx now pid) db ≡ (ok tt, mid)
      → Handled env now db mid row
  for_refund :
      (rid : ℕ)
      → ((k : ℕ) → asks_refund env k row ≡ true → k ≡ rid)
      → ((k : ℕ) → asks_payment env k row ≡ false)
      → clean (Refund.settle_mock_tx env now rid) db ≡ (ok tt, mid)
      → Handled env now db mid row

module _ (env : Env) (parses : (id : ℕ) → env.uuid_parse (env.uuid_string id) ≡ some id) (now : ℕ)
    (db : Db) where
  -- The text of the payload has one reading.
  reads :
      (wanted : Field → Bool) (payload : Object) (mid : Db) (id k : ℕ)
      → clean (parse_id env wanted payload) db ≡ (ok id, mid)
      → names wanted (env.uuid_string k) payload ≡ true
      → k ≡ id
  reads wanted payload mid id k run named =
      let again = parse_id-names env wanted k payload db (parses k) named in
      let same : ◌≡◌ {A = Result ℕ × Db} (ok k, db) (ok id, mid) = sym again ∙ run in ground arith

  handle-Handled :
      (kind : OutboxKind) (row : OutboxRow) (done : Followup) (mid : Db)
      → row.kind ≡ kind
      → clean (handle env now kind row.payload) db ≡ (ok done, mid)
      → Handled env now db mid row
  unfolding handle
  handle-Handled payment_settlement row done mid is_kind run =
      let (pid, start, parsed, rest) =
        bind-ok (parse_id env is_payment_id row.payload) _ db done mid
          (parse_id-Keeps (λ d. ⊤) env is_payment_id row.payload).safe run in
      let (u, after, settled, last) =
        bind-ok (Payment.settle_mock_tx now pid) _ start done mid
          (PaymentSafety.settle_mock_tx-FaultSafe now pid) rest in
      let same = parse_id-same env is_payment_id row.payload db start pid parsed in
      let ends : after ≡ mid = ground (arith, last) in
      for_payment pid (λ k asked. reads is_payment_id row.payload start pid k parsed (ground arith))
        (λ k. ground (arith, is_kind))
        (subst (λ d. clean (Payment.settle_mock_tx now pid) db ≡ (ok tt, d)) ends
          (subst (λ d. clean (Payment.settle_mock_tx now pid) d ≡ (ok tt, after)) same settled))
  handle-Handled refund_settlement row done mid is_kind run =
      let (rid, start, parsed, rest) =
        bind-ok (parse_id env is_refund_id row.payload) _ db done mid
          (parse_id-Keeps (λ d. ⊤) env is_refund_id row.payload).safe run in
      let (u, after, settled, last) =
        bind-ok (Refund.settle_mock_tx env now rid) _ start done mid
          (RefundSafety.settle_mock_tx-FaultSafe env now rid) rest in
      let same = parse_id-same env is_refund_id row.payload db start rid parsed in
      let ends : after ≡ mid = ground (arith, last) in
      for_refund rid (λ k asked. reads is_refund_id row.payload start rid k parsed (ground arith))
        (λ k. ground (arith, is_kind))
        (subst (λ d. clean (Refund.settle_mock_tx env now rid) db ≡ (ok tt, d)) ends
          (subst (λ d. clean (Refund.settle_mock_tx env now rid) d ≡ (ok tt, after)) same settled))
  handle-Handled unknown_kind row done mid is_kind run = absurd (ground arith)

  process_row-none :
      {x : Followup × Bool} {db' : Db}
      → clean (process_row env now none) db ≡ (ok x, db')
      → db' ≡ db
  unfolding process_row
  process_row-none run = ground arith

  process_row-Handled :
      (row : OutboxRow) (x : Followup × Bool) (db' : Db)
      → clean (process_row env now (some row)) db ≡ (ok x, db')
      → (mid : Db) × Handled env now db mid row × (db' ≡ mark_processed now row.id mid)
  unfolding process_row stmt
  process_row-Handled row x db' run =
      let (done, mid, handled, rest) =
        bind-ok (handle env now row.kind row.payload) _ db x db' (handle-FaultSafe env now row)
          run in
      (mid, handle-Handled row.kind row done mid refl handled, ground (arith, rest))

  -- A round that succeeds has handled its row and marked it, or found none.
  pub outbox_tx-cases :
      (locked : ℕ → Bool) (x : Followup × Bool) (db' : Db)
      → clean (outbox_tx env locked now) db ≡ (ok x, db')
      → (db' ≡ db)
        ⊎ ((row : OutboxRow) × (mid : Db) × (oldest locked db.async_outbox ≡ some row)
            × Handled env now db mid row
            × (db' ≡ mark_processed now row.id mid))
  unfolding outbox_tx stmt
  outbox_tx-cases locked x db' run = elim (Option-cases (oldest locked db.async_outbox)) [
    | inl idle ↦
        inl
          (process_row-none (subst (λ o. clean (process_row env now o) db ≡ (ok x, db')) idle run))
    | inr (row, first) ↦
        let (mid, handled, marked) =
          process_row-Handled row x db'
            (subst (λ o. clean (process_row env now o) db ≡ (ok x, db')) first run) in
        inr (row, mid, first, handled, marked)
  ]
