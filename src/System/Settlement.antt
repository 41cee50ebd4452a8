-- ===== src/System/Settlement.antt =====
-- From Create (payflow-app/internal/payment/payment.go) to the settlement by a round of the outbox
-- (payflow-app/cmd/worker/main.go).
use payflow_payments_ops_pla.Base.{
  ℕ, ◌≡◌, refl, inl, inr, Bool, true, false, none, some, find, Option-cases, ℤ, arith, any, List,
  ◌∷◌, [], ◌==◌, update_where-none,
}
use payflow_payments_ops_pla.Text.{Text}
use payflow_payments_ops_pla.Store.{Db, Env, Draw, Payment, OutboxRow, ok}
use payflow_payments_ops_pla.Store.Faults.{clean}
use payflow_payments_ops_pla.Ledger.{same_entry, settled_key}
use payflow_payments_ops_pla.Payment.{has_id, same_key, to_settle, normalize, settled}
use payflow_payments_ops_pla.Payment
use payflow_payments_ops_pla.Payment.Runs
use payflow_payments_ops_pla.Worker.{oldest, try_process_outbox}
use payflow_payments_ops_pla.Worker.Settle.{oldest-first, try_process_outbox-settles}

any-to_settle :
    (pid : ℕ) (ps : List Payment) → any (has_id pid) ps ≡ false → any (to_settle pid) ps ≡ false
any-to_settle pid [] free = refl
any-to_settle pid (p ∷ ps) free = ground (arith, any-to_settle pid ps)

-- Without failures: after a Create that created a payment, where no open row of the outbox was free
-- before, one round of a worker that can lock the new row reports this payment, which is found
-- succeeded, with its settlement in the ledger; of the payments, no other than this first one
-- differs from those before the Create, the refunds are those from before the Create, and the outbox
-- has one row more, which is processed. The UUID must parse back from its own text.
pub create-try_process_outbox :
    (env : Env) (draw : Draw) (tid : ℕ) (key : Text) (amount : ℤ) (raw : Text) (db db' : Db)
    (p : Payment) (locked : ℕ → Bool) (now : ℕ)
    → clean (Payment.create env draw tid key amount raw) db ≡ (ok (p, true), db')
    → oldest locked db.async_outbox ≡ none
    → locked draw.outbox_id ≡ false
    → env.uuid_parse (env.uuid_string draw.row_id) ≡ some draw.row_id
    → (after : Db) × (clean (try_process_outbox env locked now) db'
        ≡ (ok (record { payment_id = some p.id; refund_id = none }), after))
      × (find (has_id p.id) after.payments ≡ some (settled now p))
      × (any (same_entry p.id settled_key) after.ledger_events ≡ true)
      × (after.payments ≡ settled now p ∷ db.payments)
      × (after.refunds ≡ db.refunds)
      × ((row : OutboxRow) × (after.async_outbox ≡ row ∷ db.async_outbox)
          × (row.id ≡ draw.outbox_id)
          × (row.processed_at ≡ some now))
create-try_process_outbox env draw tid key amount raw db db' p locked now run idle free parsed =
    let cur = normalize env raw in
    let inside = Runs.create-success env draw tid key amount raw db (p, true) db' run in
    elim (Option-cases (find (same_key tid key) db.payments)) [
      | inl missing ↦
          let fresh =
            Runs.create_tx-fresh env draw tid key amount cur db p true db' missing inside.1 in
          let row = Runs.opened env draw tid key amount cur db in
          let new = Runs.accepted env draw tid key amount cur db in
          let first : oldest locked db'.async_outbox ≡ some row =
            rw fresh.6 (oldest-first locked row db.async_outbox idle refl free) in
          let found : find (has_id draw.row_id) db'.payments ≡ some new = ground (arith, fresh.4) in
          let (after, done, paid, entry, closed, rows, refunds) =
            try_process_outbox-settles env locked now db' row (env.uuid_string draw.row_id)
              draw.row_id new first refl refl parsed found refl in
          let others =
            update_where-none (to_settle draw.row_id) (settled now) db.payments
              (any-to_settle draw.row_id db.payments fresh.3) in
          let outbox =
            update_where-none (λ r. r.id == draw.outbox_id)
              (λ r. record r { processed_at = some now }) db.async_outbox fresh.7 in
          (
            after,
            rw fresh.1 done,
            rw fresh.1 paid,
            rw fresh.1 entry,
            ground (arith, rows, fresh.4, fresh.1, others),
            ground (arith, refunds, fresh.5),
            (
              record row { processed_at = some now },
              ground (arith, closed, fresh.6, outbox),
              refl,
              refl,
            ),
          )
      | inr (q, there) ↦
          let again =
            Runs.create_tx-found env draw tid key amount cur db q p true db' there inside.1 in
          absurd (ground (arith, again.0))
    ]
