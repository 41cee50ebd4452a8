-- ===== src/Tests/Settlements.antt =====
-- Settlement of a payment, directly and through the outbox.
use payflow_payments_ops_pla.Base.{◌≡◌, refl, true, false, none, some, [], ◌∷◌, pos, find, any}
use payflow_payments_ops_pla.Text.{codes, trim_space, to_upper, byte_len}
use payflow_payments_ops_pla.Store.{
  Db, OutboxRow, payment_settlement, payment_id, str, ok, transact, stmt,
}
use payflow_payments_ops_pla.Store.Faults.{clean, at}
use payflow_payments_ops_pla.Ledger.{append, insert_event, same_entry, settled_key}
use payflow_payments_ops_pla.Audit.{write}
use payflow_payments_ops_pla.Outbox.{insert_payment_settlement}
use payflow_payments_ops_pla.Payment.{has_id, settled}
use payflow_payments_ops_pla.Payment
use payflow_payments_ops_pla.Payment.Settle
use payflow_payments_ops_pla.Worker.{try_process_outbox, oldest}
use payflow_payments_ops_pla.Worker.Outcome.{Outcome, try_process_outbox-Outcome}
use payflow_payments_ops_pla.System.{empty_db}
use payflow_payments_ops_pla.System.Settlement.{create-try_process_outbox}
use payflow_payments_ops_pla.Tests.Data.{demo_env, draw, key, first_db, first_payment}

abbrev open_row : OutboxRow
open_row = record {
  id = 1;
  kind = payment_settlement;
  payload = (payment_id, str (1 ∷ [])) ∷ [];
  created_at = 1;
  processed_at = none;
}

abbrev waiting_db : Db
waiting_db = record empty_db { payments = first_payment ∷ []; async_outbox = open_row ∷ [] }

settle_mock-once_example :
    (db' : Db) × (clean (Payment.settle_mock 5 1) waiting_db ≡ (ok tt, db'))
    × (find (has_id 1) db'.payments ≡ some (settled 5 first_payment))
    × (any (same_entry 1 settled_key) db'.ledger_events ≡ true)
    × (clean (Payment.settle_mock 6 1) db' ≡ (ok tt, db'))
settle_mock-once_example = Settle.settle_mock-once 5 6 1 waiting_db first_payment refl refl

try_process_outbox-Outcome_example :
    Outcome demo_env 5 waiting_db
      (λ id. false)
      (try_process_outbox demo_env (λ id. false) 5 (at waiting_db (false ∷ false ∷ true ∷ [])))
try_process_outbox-Outcome_example =
    try_process_outbox-Outcome demo_env (λ id. false) 5 waiting_db (false ∷ false ∷ true ∷ [])

created_run :
    clean (Payment.create demo_env (draw 1) 7 key (pos 500) (codes " usd")) empty_db
    ≡ (ok (first_payment, true), first_db)
unfolding Payment.create Payment.is_valid_create trim_space to_upper byte_len Payment.create_tx
    Payment.insert_payment Payment.accept Payment.request_fingerprint transact stmt append
    insert_event write insert_payment_settlement
created_run = refl

create-try_process_outbox_example :
    (after : Db) × (clean (try_process_outbox demo_env (λ id. false) 5) first_db
      ≡ (ok (record { payment_id = some 1; refund_id = none }), after))
    × (find (has_id 1) after.payments ≡ some (settled 5 first_payment))
    × (any (same_entry 1 settled_key) after.ledger_events ≡ true)
    × (after.payments ≡ settled 5 first_payment ∷ [])
    × (after.refunds ≡ [])
    × ((row : OutboxRow) × (after.async_outbox ≡ row ∷ [])
        × (row.id ≡ 1)
        × (row.processed_at ≡ some 5))
unfolding oldest
create-try_process_outbox_example =
    create-try_process_outbox demo_env (draw 1) 7 key (pos 500) (codes " usd") empty_db first_db
      first_payment (λ id. false) 5 created_run refl refl refl
