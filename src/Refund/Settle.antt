-- ===== src/Refund/Settle.antt =====
-- payflow-app/internal/refund/refund.go: what a settlement leaves when the database does not fail.
use payflow_payments_ops_pla.Base.{
  ℕ, ◌≡◌, ⊤, refl, inl, inr, false, true, Bool-cases, Option-cases, some, find, any, find-update,
  find_sound, any-find-some, arith, [], ◌∷◌,
}
use payflow_payments_ops_pla.Store.{
  Db, Env, Payment, Refund, LedgerType, refund_id, str, is_pending, is_succeeded, ok, stmt,
}
use payflow_payments_ops_pla.Store.Faults.{clean}
use payflow_payments_ops_pla.Payment.{has_id}
use payflow_payments_ops_pla.Refund.{
  joined, has_refund_id, to_refund, refunded, mark_refunded, settle_mock_tx,
}
use payflow_payments_ops_pla.Ledger.{append, insert_event, refunded_key}

pub settle_mock_tx-async_outbox :
    (env : Env) (now rid : ℕ) (db db' : Db) (u : ⊤)
    → clean (settle_mock_tx env now rid) db ≡ (ok u, db')
    → db'.async_outbox ≡ db.async_outbox
unfolding settle_mock_tx joined append insert_event stmt
settle_mock_tx-async_outbox env now rid db db' u run = ground arith

-- After a settlement that succeeds the outbox is as it was, and the refund is not pending, where its
-- payment is there.
pub settle_mock_tx-done :
    (env : Env) (now rid : ℕ) (db db' : Db) (u : ⊤)
    → clean (settle_mock_tx env now rid) db ≡ (ok u, db')
    → ((r : Refund)
        → find (has_refund_id rid) db.refunds ≡ some r
        → any (has_id r.payment_id) db.payments ≡ true)
    → (db'.async_outbox ≡ db.async_outbox)
      × ((r : Refund) → find (has_refund_id rid) db'.refunds ≡ some r → is_pending r.status ≡ false)
unfolding settle_mock_tx joined append insert_event stmt
settle_mock_tx-done env now rid db db' u run owned = (
  settle_mock_tx-async_outbox env now rid db db' u run,
  λ r found.
      let updated =
        find-update (has_refund_id rid) (to_refund rid) (refunded now) db.refunds (λ q. refl) in
      elim (Option-cases (find (has_refund_id rid) db.refunds)) [
        | inl missing ↦ absurd (ground (arith, updated))
        | inr (q, there) ↦
            let (p, paid) = any-find-some (has_id q.payment_id) db.payments (owned q there) in
            elim (Bool-cases (is_pending q.status)) [
              | inl waiting ↦
                  ground (arith, updated, find_sound (has_refund_id rid) db.refunds q there)
              | inr over ↦ ground (arith, updated)
            ]
      ],
)

-- Without failures of the database SettleMockTx has no error, where the payment of the refund is settled.
pub settle_mock_tx-ok :
    (env : Env) (now rid : ℕ) (db : Db)
    → ((r : Refund)
        → find (has_refund_id rid) db.refunds ≡ some r
        → (p : Payment) × (find (has_id r.payment_id) db.payments ≡ some p)
          × (is_succeeded p.status ≡ true))
    → (after : Db) × (clean (settle_mock_tx env now rid) db ≡ (ok tt, after))
unfolding settle_mock_tx joined append insert_event stmt
settle_mock_tx-ok env now rid db paid = elim (Option-cases (find (has_refund_id rid) db.refunds)) [
  | inl missing ↦ (db, ground (arith, missing))
  | inr (r, there) ↦
      let (p, found, succeeded) = paid r there in
      elim (Bool-cases (is_pending r.status)) [
        | inl waiting ↦ (
          mark_refunded now rid
              (insert_event now r.tenant_id r.payment_id (refunded_key env rid)
                LedgerType.refund_succeeded ((refund_id, str (env.uuid_string rid)) ∷ []) db).1,
          ground (arith, there, found),
        )
        | inr done ↦ (db, ground (arith, there, found))
      ]
]
