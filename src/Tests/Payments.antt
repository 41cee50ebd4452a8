-- ===== src/Tests/Payments.antt =====
-- Create and settlement of payments.
use payflow_payments_ops_pla.Base.{◌≡◌, refl, pos, true, false, [], ◌∷◌, arith}
use payflow_payments_ops_pla.Text.{codes, trim_space, to_upper, byte_len}
use payflow_payments_ops_pla.Store.{ok, err, idempotency_mismatch, transact, stmt}
use payflow_payments_ops_pla.Ledger.{append, insert_event}
use payflow_payments_ops_pla.Audit.{write}
use payflow_payments_ops_pla.Outbox.{insert_payment_settlement}
use payflow_payments_ops_pla.Store.Faults.{clean, at}
use payflow_payments_ops_pla.Payment.Outcome.{Outcome, create_payment-Outcome}
use payflow_payments_ops_pla.Payment
use payflow_payments_ops_pla.Payment.Idempotency
use payflow_payments_ops_pla.System.{empty_db}
use payflow_payments_ops_pla.Tests.Data.{demo_env, draw, key, first_db, first_payment}

create_payment-Outcome_example :
    Outcome demo_env (draw 1) 7 key (pos 500) (codes " usd") (false ∷ false ∷ true ∷ []) empty_db (
      Payment.create demo_env
        (draw 1)
        7
        key
        (pos 500)
        (codes " usd")
        (at empty_db (false ∷ false ∷ true ∷ [])))
create_payment-Outcome_example =
    create_payment-Outcome demo_env (draw 1) 7 key (pos 500) (codes " usd") empty_db
      (false ∷ false ∷ true ∷ [])

first_run :
    clean (Payment.create demo_env (draw 1) 7 key (pos 500) (codes " usd")) empty_db
    ≡ (ok (first_payment, true), first_db)
unfolding Payment.create Payment.is_valid_create trim_space to_upper byte_len Payment.create_tx
    Payment.insert_payment Payment.accept Payment.request_fingerprint transact stmt append
    insert_event write insert_payment_settlement
first_run = refl

repeat_payment_example :
    clean (Payment.create demo_env (draw 2) 7 key (pos 500) (codes "Usd ")) first_db
    ≡ (ok (first_payment, false), first_db)
unfolding Payment.is_valid_create trim_space to_upper byte_len
repeat_payment_example =
    Idempotency.repeat_payment demo_env (draw 1) (draw 2) 7 key (pos 500) (codes " usd")
      (codes "Usd ") empty_db first_db first_payment true first_run refl refl

repeat_payment_conflict_example :
    clean (Payment.create demo_env (draw 2) 7 key (pos 501) (codes "USD")) first_db
    ≡ (err idempotency_mismatch, first_db)
unfolding Payment.is_valid_create Payment.request_fingerprint trim_space to_upper byte_len
repeat_payment_conflict_example =
    Idempotency.repeat_payment_conflict demo_env (draw 1) (draw 2) 7 key (pos 500) (pos 501)
      (codes " usd") (codes "USD") empty_db first_db first_payment true first_run refl
      (λ e. ground arith)
