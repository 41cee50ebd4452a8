-- ===== src/System/Programs.antt =====
-- cmd/api and cmd/worker side by side: requests that are served (payflow-app/internal/httpapi/router.go)
-- and rounds of workers (payflow-app/cmd/worker/main.go), in any order.
use payflow_payments_ops_pla.Base.{◌≡◌, ◌<◌, ◌^◌, ℕ, ℤ, pos_part, some, List, [], ◌∷◌, All}
use payflow_payments_ops_pla.Text.{Text}
use payflow_payments_ops_pla.Store.{Db, Env}
use payflow_payments_ops_pla.Store.Faults.{at}
use payflow_payments_ops_pla.Queue.{World, Job}
use payflow_payments_ops_pla.Http.{HttpRequest, Server}
use payflow_payments_ops_pla.Http.Router.{serve}
use payflow_payments_ops_pla.Worker.Loop.{Round, worker_round}
use payflow_payments_ops_pla.System.{Reach, here}
use payflow_payments_ops_pla.System.Requests.{serve-Reach}
use payflow_payments_ops_pla.System.Rounds.{worker_round-Reach}

-- What one of the processes does, in a world of its own; the tables are shared.
pub data Act : Type 0 where
  request : Server → HttpRequest → World → Act
  round : Round → World → Act

-- The world of a process, over the tables as they are.
abbrev pub over : Db → World → World
over db w = record w { store = at db w.store.faults }

unfoldable pub perform : Env → Act → Db → Db
perform env (request s r w) db = (serve (record s { env = env }) r (over db w)).1.store.db
perform env (round r w) db = (worker_round env r (over db w)).1.store.db

-- The last act of the list comes first.
unfoldable pub perform_all : Env → List Act → Db → Db
unfolding perform
perform_all env [] db = db
perform_all env (act ∷ before) db = perform env act (perform_all env before db)

-- The publisher of the process has tables of its own, if any.
abbrev pub IsApart : Act → Type 0
IsApart (request s r w) = (did : ℕ) (x : World) → (s.publish did x).1.store.db ≡ x.store.db
IsApart (round r w) = (job : Job) (x : World) → (r.publish job x).1.store.db ≡ x.store.db

-- No payment is asked for that has 2 ^ 62 cents or more.
abbrev pub IsSmall : Act → Type 0
IsSmall (request s r w) =
    (body : Text) (x : ℤ × Text) → s.codec.decode_payment body ≡ some x → pos_part x.0 < 2 ^ 62
IsSmall (round r w) = Unit

perform-Reach :
    (env : Env) (start : Db) (act : Act) (db : Db)
    → IsApart act
    → IsSmall act
    → Reach env start db
    → Reach env start (perform env act db)
unfolding perform
perform-Reach env start (request s r w) db apart small before =
    serve-Reach start (record s { env = env }) r (over db w) small apart before
perform-Reach env start (round r w) db apart small before =
    worker_round-Reach start env r (over db w) apart before

-- A history of one process goes on with what the next ones do.
pub perform_all-from :
    (env : Env) (first : Db) (acts : List Act) (start : Db)
    → All IsApart acts
    → All IsSmall acts
    → Reach env first start
    → Reach env first (perform_all env acts start)
unfolding perform_all
perform_all-from env first [] start apart small reached = reached
perform_all-from env first (act ∷ before) start (apart, aparts) (small, smalls) reached =
    perform-Reach env first act (perform_all env before start) apart small
      (perform_all-from env first before start aparts smalls reached)

-- Whatever requests the API serves and whatever rounds the workers make, in any order, with any
-- failures, the tables come about by a history of the transactions of `Step`. No request decodes to a
-- payment of 2 ^ 62 cents or more, and the publishers leave the tables alone.
pub perform_all-Reach :
    (env : Env) (acts : List Act) (start : Db)
    → All IsApart acts
    → All IsSmall acts
    → Reach env start (perform_all env acts start)
perform_all-Reach env acts start aparts smalls =
    perform_all-from env start acts start aparts smalls here
