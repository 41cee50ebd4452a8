-- ===== src/Tests/Refunds.antt =====
-- Create of refunds, and the bound on them.
use payflow_payments_ops_pla.Base.{
  ◌≡◌, ◌-◌, ◌^◌, count_where, ◌≤◌, ◌<◌, ◌+◌, refl, pos, true, false, [], ◌∷◌, arith, find, some,
  add64,
}
use payflow_payments_ops_pla.Text.{codes, trim_space, to_upper, byte_len}
use payflow_payments_ops_pla.Store.{
  Db, Payment, Refund, ok, err, refund_amount_exceeded, transact, stmt,
}
use payflow_payments_ops_pla.Store.Faults.{clean, at}
use payflow_payments_ops_pla.Refund.Outcome.{Outcome, create_refund-Outcome}
use payflow_payments_ops_pla.Ledger.{append, insert_event}
use payflow_payments_ops_pla.Audit.{write}
use payflow_payments_ops_pla.Outbox.{insert_payment_settlement, insert_refund_settlement}
use payflow_payments_ops_pla.Payment
use payflow_payments_ops_pla.Refund
use payflow_payments_ops_pla.Refund.Idempotency
use payflow_payments_ops_pla.Refund.Bound.{total}
use payflow_payments_ops_pla.System.{
  Reach, here, next, create_payment, settle_payment, create_refund, empty_db,
}
use payflow_payments_ops_pla.Ledger.{same_entry, accepted_key, settled_key}
use payflow_payments_ops_pla.System.Entries.{ledger_unique}
use payflow_payments_ops_pla.System.Books.Histories.{ledger_books}
use payflow_payments_ops_pla.Refund.Overflow.{check_tx-wraps}
use payflow_payments_ops_pla.System.Refunds.{refunds-le-payment, Reach-Covered, empty_db-Covered}
use payflow_payments_ops_pla.System.Account.{Evolves, account}
use payflow_payments_ops_pla.System.Refinement.{account-Evolves}
use payflow_payments_ops_pla.Tests.Data.{
  demo_env, draw, key, settled_db, settled_payment, refunded_db, first_refund,
}

history : Reach demo_env empty_db settled_db
history =
    next (next here (create_payment (draw 1) 7 key (pos 500) (codes " usd") [] (omega arith) refl))
      (settle_payment 5 1 [] refl)

settled_row : find (Payment.has_id 1) settled_db.payments ≡ some settled_payment
unfolding Payment.create Payment.is_valid_create trim_space to_upper byte_len Payment.create_tx
    Payment.insert_payment Payment.accept Payment.request_fingerprint transact stmt append
    insert_event write insert_payment_settlement Payment.settle_mock Payment.settle_mock_tx
settled_row = refl

-- A second refund of 200 fits into 500, and a second one of 300 does not.
abbrev two_hundred_db : Db
two_hundred_db =
    (Refund.create demo_env (draw 2) 7 1 (codes "refund-1") (pos 200) (at settled_db [])).1.db

abbrev two_hundred : Refund
two_hundred = Refund.new_refund demo_env (draw 2) 7 1 (codes "refund-1") (pos 200) (codes "USD")

two_hundred_run :
    clean (Refund.create demo_env (draw 2) 7 1 (codes "refund-1") (pos 200)) settled_db
    ≡ (ok (two_hundred, true), two_hundred_db)
unfolding Payment.create Payment.is_valid_create trim_space to_upper byte_len Payment.create_tx
    Payment.insert_payment Payment.accept Payment.request_fingerprint transact stmt append
    insert_event write insert_payment_settlement Payment.settle_mock Payment.settle_mock_tx
    Refund.create Refund.create_tx Refund.check_tx Refund.sum_reserved Refund.insert_tx
    Refund.insert_refund Refund.accept Refund.request_fingerprint insert_refund_settlement add64
two_hundred_run = refl

two_hundred_fits :
    (find (Payment.has_id 1) two_hundred_db.payments ≡ some settled_payment)
    × (Refund.reserved 1 two_hundred_db + two_hundred.amount_cents ≤ settled_payment.amount_cents)
unfolding Payment.create Payment.is_valid_create trim_space to_upper byte_len Payment.create_tx
    Payment.insert_payment Payment.accept Payment.request_fingerprint transact stmt append
    insert_event write insert_payment_settlement Payment.settle_mock Payment.settle_mock_tx
    Refund.create Refund.create_tx Refund.check_tx Refund.sum_reserved Refund.insert_tx
    Refund.insert_refund Refund.accept Refund.request_fingerprint insert_refund_settlement add64
two_hundred_fits = (refl, omega arith)

repeat_refund_example :
    clean (Refund.create demo_env (draw 3) 7 1 (codes "refund-1") (pos 200)) two_hundred_db
    ≡ (ok (two_hundred, false), two_hundred_db)
repeat_refund_example =
    Idempotency.repeat_refund demo_env (draw 2) (draw 3) 7 1 (codes "refund-1") (pos 200) settled_db
      two_hundred_db two_hundred true settled_payment (Reach-Covered empty_db-Covered history)
      two_hundred_run two_hundred_fits.0 two_hundred_fits.1

refund_run :
    clean (Refund.create demo_env (draw 2) 7 1 (codes "refund-1") (pos 300)) settled_db
    ≡ (ok (first_refund, true), refunded_db)
unfolding Payment.create Payment.is_valid_create trim_space to_upper byte_len Payment.create_tx
    Payment.insert_payment Payment.accept Payment.request_fingerprint transact stmt append
    insert_event write insert_payment_settlement Payment.settle_mock Payment.settle_mock_tx
    Refund.create Refund.create_tx Refund.check_tx Refund.sum_reserved Refund.insert_tx
    Refund.insert_refund Refund.accept Refund.request_fingerprint insert_refund_settlement add64
refund_run = refl

refunded_exceeds :
    (find (Payment.has_id 1) refunded_db.payments ≡ some settled_payment)
    × (settled_payment.amount_cents < Refund.reserved 1 refunded_db + first_refund.amount_cents)
unfolding Payment.create Payment.is_valid_create trim_space to_upper byte_len Payment.create_tx
    Payment.insert_payment Payment.accept Payment.request_fingerprint transact stmt append
    insert_event write insert_payment_settlement Payment.settle_mock Payment.settle_mock_tx
    Refund.create Refund.create_tx Refund.check_tx Refund.sum_reserved Refund.insert_tx
    Refund.insert_refund Refund.accept Refund.request_fingerprint insert_refund_settlement add64
refunded_exceeds = (refl, omega arith)

repeat_refund_refused_example :
    clean (Refund.create demo_env (draw 3) 7 1 (codes "refund-1") (pos 300)) refunded_db
    ≡ (err refund_amount_exceeded, refunded_db)
repeat_refund_refused_example =
    Idempotency.repeat_refund_refused demo_env (draw 2) (draw 3) 7 1 (codes "refund-1") (pos 300)
      settled_db refunded_db first_refund true settled_payment
      (Reach-Covered empty_db-Covered history) refund_run refunded_exceeds.0 refunded_exceeds.1

create_refund-Outcome_example :
    Outcome demo_env (draw 2) 7 1 (codes "refund-1") (pos 300) settled_db (
      Refund.create demo_env
        (draw 2)
        7
        1
        (codes "refund-1")
        (pos 300)
        (at settled_db (false ∷ true ∷ [])))
create_refund-Outcome_example =
    create_refund-Outcome demo_env (draw 2) 7 1 (codes "refund-1") (pos 300) settled_db
      (false ∷ true ∷ [])

refunded_history : Reach demo_env empty_db refunded_db
refunded_history = next history (create_refund (draw 2) 7 1 (codes "refund-1") (pos 300) [] refl)

refunds-le-payment_example : total 1 refunded_db.refunds ≤ settled_payment.amount_cents
refunds-le-payment_example =
    refunds-le-payment demo_env refunded_db 1 settled_payment refunded_history refunded_exceeds.0

ledger_unique_example : count_where (same_entry 1 settled_key) refunded_db.ledger_events ≤ 1
ledger_unique_example = ledger_unique demo_env refunded_db 1 settled_key refunded_history

ledger_books_example :
    (count_where (same_entry 1 accepted_key) settled_db.ledger_events ≡ 1)
    × (count_where (same_entry 1 settled_key) settled_db.ledger_events ≡ 1)
ledger_books_example = ledger_books demo_env settled_db 1 settled_payment history settled_row

account-Evolves_example : Evolves (account 1 settled_db) (account 1 refunded_db)
account-Evolves_example =
    account-Evolves demo_env settled_db refunded_db 1 history
      (next here (create_refund (draw 2) 7 1 (codes "refund-1") (pos 300) [] refl))

-- The largest payment that an int64 holds, refunded in full.
abbrev huge_payment : Payment
huge_payment = record settled_payment { amount_cents = 2 ^ 63 - 1 }

abbrev huge_db : Db
huge_db = record empty_db {
  payments = huge_payment ∷ [];
  refunds = record first_refund { amount_cents = 2 ^ 63 - 1 } ∷ [];
}

check_tx-wraps_example : clean (Refund.check_tx 7 1 (pos 0) huge_payment) huge_db ≡ (ok tt, huge_db)
check_tx-wraps_example =
    check_tx-wraps 7 1 huge_payment huge_db refl refl (omega arith) (omega arith) refl
