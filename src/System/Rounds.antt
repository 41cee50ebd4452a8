-- ===== src/System/Rounds.antt =====
-- A round of cmd/worker (payflow-app/cmd/worker/main.go) as a history of transactions.
use payflow_payments_ops_pla.Base.{◌≡◌, refl}
use payflow_payments_ops_pla.Store.{Db, Env}
use payflow_payments_ops_pla.Queue.{World, Job}
use payflow_payments_ops_pla.Worker.Loop.{Round, worker_round}
use payflow_payments_ops_pla.Worker.Loop.Keeps.{RoundCalls, worker_round-Keeps}
use payflow_payments_ops_pla.System.{settle_payment, settle_refund, process_outbox, Reach, next}
use payflow_payments_ops_pla.System.Beside.{
  insert_delivery-Beside, update_pending-Beside, step-Reach,
}

calls-Reach :
    (start : Db) (env : Env) (r : Round)
    → ((job : Job) (x : World) → (r.publish job x).1.store.db ≡ x.store.db)
    → RoundCalls (Reach env start) env r
calls-Reach start env r apart = record {
  settles = λ pid. record {
    keeps = λ x before. next before (settle_payment r.draw.now pid x.faults refl);
  };
  refunds = λ rid. record {
    keeps = λ x before. next before (settle_refund r.draw.now rid x.faults refl);
  };
  inserts = λ d. step-Reach env start _ (λ old. insert_delivery-Beside old d);
  updates = λ did change. step-Reach env start _ (λ old. update_pending-Beside old did change);
  publishes = λ job. record { keeps = λ x before. rw (apart job x) before };
}

pub worker_round-Reach :
    (start : Db) (env : Env) (r : Round) (w : World)
    → ((job : Job) (x : World) → (r.publish job x).1.store.db ≡ x.store.db)
    → Reach env start w.store.db
    → Reach env start (worker_round env r w).1.store.db
worker_round-Reach start env r w apart before =
    worker_round-Keeps (Reach env start) env r (calls-Reach start env r apart) w
      (next before (process_outbox r.locked r.draw.now w.store.faults refl))
