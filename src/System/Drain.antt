-- ===== src/System/Drain.antt =====
-- Rounds of a worker (payflow-app/cmd/worker/main.go) over what waits in the outbox, when the database
-- does not fail.
pub mod Outbox
use payflow_payments_ops_pla.Base.{
  ℕ, ◌≡◌, ◌≤◌, ◌-◌, ◌+◌, refl, sym, ap, ◌∙◌, subst, inl, inr, Bool, true, false, Bool-cases, none,
  some, List, [], ◌∷◌, any, any-weaken, All, map, length, arith, suc, ◌&&◌, not,
}
use payflow_payments_ops_pla.Store.{
  Db, Env, Payment, Refund, OutboxRow, is_pending, ok, stmt, transact,
}
use payflow_payments_ops_pla.Store.Faults.{at, clean}
use payflow_payments_ops_pla.Store.Keeps.{Keeps}
use payflow_payments_ops_pla.Queue.{World, Job}
use payflow_payments_ops_pla.Queue.Keeps.{KeepsW}
use payflow_payments_ops_pla.Payment
use payflow_payments_ops_pla.Payment.Safety as PaymentSafety
use payflow_payments_ops_pla.Payment.Settle as PaymentSettle
use payflow_payments_ops_pla.Refund
use payflow_payments_ops_pla.Refund.Safety as RefundSafety
use payflow_payments_ops_pla.Refund.Settle as RefundSettle
use payflow_payments_ops_pla.Worker.{is_open, try_process_outbox}
use payflow_payments_ops_pla.Worker.Asks.{asks_payment, asks_refund}
use payflow_payments_ops_pla.Worker.Open.{count_open, none_asks}
use payflow_payments_ops_pla.Worker.Loop.{Round, worker_round}
use payflow_payments_ops_pla.Worker.Loop.Keeps.{RoundCalls, worker_round-Keeps}
use payflow_payments_ops_pla.Http.Keeps.{KeepsTx, transact-KeepsTx}
use payflow_payments_ops_pla.System.{Reach, empty_db}
use payflow_payments_ops_pla.System.Refunds.{Reach-Covered, empty_db-Covered}
use payflow_payments_ops_pla.System.Beside.{Beside, insert_delivery-Beside, update_pending-Beside}
use payflow_payments_ops_pla.System.Programs.{
  Act, round, over, perform, perform_all, perform_all-from, IsApart, IsSmall,
}
use payflow_payments_ops_pla.System.Waiting.{OutboxComplete}
use payflow_payments_ops_pla.System.Waiting.Stranded.{is_stranded_payment, is_stranded_refund}
use payflow_payments_ops_pla.System.Waiting.Histories.{Reach-Complete, pending-asked}
use payflow_payments_ops_pla.System.Drain.Outbox.{try_process_outbox-count_open}

-- A round of a worker alone: no row is locked, no call of the database breaks, and the publisher leaves
-- the tables alone.
pub record IsAlone (x : Round × World) : Type 0 where
  pub free : (id : ℕ) → x.0.locked id ≡ false
  pub faultless : x.1.store.faults ≡ []
  pub apart : (job : Job) (y : World) → (x.0.publish job y).1.store.db ≡ y.store.db

abbrev pub round_act : Round × World → Act
round_act (r, w) = round r w

module _ (rows : List OutboxRow) where
  abbrev Holds : Db → Type 0
  Holds db = db.async_outbox ≡ rows

  settle_payment-Holds : (now pid : ℕ) → KeepsTx Holds (Payment.settle_mock now pid)
  unfolding Payment.settle_mock
  settle_payment-Holds now pid = transact-KeepsTx Holds _ (record {
    safe = PaymentSafety.settle_mock_tx-FaultSafe now pid;
    keeps =
        λ db u db' run before. (PaymentSettle.settle_mock_tx-done now pid db db' u run).0 ∙ before;
  })

  settle_refund-Holds : (env : Env) (now rid : ℕ) → KeepsTx Holds (Refund.settle_mock env now rid)
  unfolding Refund.settle_mock
  settle_refund-Holds env now rid = transact-KeepsTx Holds _ (record {
    safe = RefundSafety.settle_mock_tx-FaultSafe env now rid;
    keeps = λ db u db' run before.
        RefundSettle.settle_mock_tx-async_outbox env now rid db db' u run ∙ before;
  })

  calls-Holds :
      (env : Env) (r : Round)
      → ((job : Job) (y : World) → (r.publish job y).1.store.db ≡ y.store.db)
      → RoundCalls Holds env r
  calls-Holds env r apart = record {
    settles = settle_payment-Holds r.draw.now;
    refunds = settle_refund-Holds env r.draw.now;
    inserts = λ d. record {
      keeps = λ s before.
          ap (λ c. c.async_outbox) ((insert_delivery-Beside s.db d).keeps s refl) ∙ before;
    };
    updates = λ did change. record {
      keeps = λ s before.
          ap (λ c. c.async_outbox) ((update_pending-Beside s.db did change).keeps s refl) ∙ before;
    };
    publishes = λ job. record { keeps = λ y before. rw (apart job y) before };
  }

module _ (env : Env) (parses : (id : ℕ) → env.uuid_parse (env.uuid_string id) ≡ some id) where
  perform-count_open :
      (x : Round × World) (db : Db)
      → IsAlone x
      → OutboxComplete env db
      → count_open (perform env (round_act x) db).async_outbox ≡ count_open db.async_outbox - 1
  unfolding perform
  perform-count_open (r, w) db alone complete =
      let first = (clean (try_process_outbox env r.locked r.draw.now) db).1.async_outbox in
      let clean_run : (try_process_outbox env r.locked r.draw.now
            (at db w.store.faults)).1.db.async_outbox
          ≡ first =
        ap (λ fs. (try_process_outbox env r.locked r.draw.now (at db fs)).1.db.async_outbox)
          alone.faultless in
      ap count_open (
        worker_round-Keeps (Holds first) env r (calls-Holds first env r alone.apart) (over db w)
          clean_run)
      ∙ try_process_outbox-count_open env parses r.draw.now db r.locked alone.free complete

  rounds-IsApart : (xs : List (Round × World)) → All IsAlone xs → All IsApart (map round_act xs)
  rounds-IsApart [] alone = tt
  rounds-IsApart (x ∷ xs) (first, alone) = (first.apart, rounds-IsApart xs alone)

  rounds-IsSmall : (xs : List (Round × World)) → All IsSmall (map round_act xs)
  rounds-IsSmall [] = tt
  rounds-IsSmall (x ∷ xs) = (tt, rounds-IsSmall xs)

  module _ (db : Db) (past : Reach env empty_db db) where
    rounds-Reach :
        (xs : List (Round × World))
        → All IsAlone xs
        → Reach env empty_db (perform_all env (map round_act xs) db)
    rounds-Reach xs alone =
        perform_all-from env empty_db (map round_act xs) db (rounds-IsApart xs alone)
          (rounds-IsSmall xs) past

    rounds-count_open :
        (xs : List (Round × World))
        → All IsAlone xs
        → count_open (perform_all env (map round_act xs) db).async_outbox
          ≡ count_open db.async_outbox - length xs
    unfolding perform_all
    rounds-count_open [] alone = omega arith
    rounds-count_open (x ∷ xs) (first, alone) =
        let mid = perform_all env (map round_act xs) db in
        let complete = Reach-Complete env parses (rounds-Reach xs alone) in
        let rest = rounds-count_open xs alone in
        let step = perform-count_open x mid first complete in omega (arith, rest, step)

-- After any history from the empty tables, rounds of a worker that is alone, as many as the outbox has
-- open rows, leave no payment and no refund pending, when no call of the database fails; whatever the
-- queue brings, the receivers of webhooks reply and the broker does. A UUID parses back from its text.
pub rounds-settle :
    (env : Env) (db : Db) (xs : List (Round × World))
    → ((id : ℕ) → env.uuid_parse (env.uuid_string id) ≡ some id)
    → Reach env empty_db db
    → All IsAlone xs
    → count_open db.async_outbox ≤ length xs
    → (any (λ p. is_pending p.status) (perform_all env (map round_act xs) db).payments ≡ false)
      × (any (λ r. is_pending r.status) (perform_all env (map round_act xs) db).refunds ≡ false)
rounds-settle env db xs parses past alone enough =
    let after = perform_all env (map round_act xs) db in
    let counted = rounds-count_open env parses db past xs alone in
    let none_open : count_open after.async_outbox ≡ 0 = omega (arith, counted, enough) in
    let stranded = pending-asked env after parses (rounds-Reach env parses db past xs alone) in
    (
      any-weaken (λ p. is_pending p.status) (is_stranded_payment env after.async_outbox)
          after.payments
          (λ p free.
            let unasked =
              none_asks (asks_payment env p.id) after.async_outbox (λ row h. ground arith)
                none_open in
            ground arith)
          stranded.0,
      any-weaken (λ r. is_pending r.status) (is_stranded_refund env after.async_outbox)
          after.refunds
          (λ r free.
            let unasked =
              none_asks (asks_refund env r.id) after.async_outbox (λ row h. ground arith)
                none_open in
            ground arith)
          stranded.1,
    )
