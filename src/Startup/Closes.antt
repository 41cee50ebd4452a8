-- ===== src/Startup/Closes.antt =====
-- What main of payflow-app/cmd/api/main.go closes at its end.
use payflow_payments_ops_pla.Base.{
  ◌+◌, ◌≡◌, refl, Bool, true, false, Option, none, some, List, [], ◌∷◌, ⊤, count_where, ◌∙◌, arith,
  if◌then◌else◌,
}
use payflow_payments_ops_pla.Text.{Text, codes}
use payflow_payments_ops_pla.Config.{
  Config, Backend, missing, no_op, service_bus, redis, api_backend, worker_backend,
}
use payflow_payments_ops_pla.Startup.{
  Resource, exporter, pool, bus, redis_client, Event, opened, closed, logged, traced, Calls,
  OtelVariables, Process, Flow, exits, goes, Main, Ending, listen_fails, signalled, and_then, init,
  after_init, start_tracing, new_pool, start_pool, open_client, start_backend, listen, close_one,
  close_all, run_main, nothing_yet, api_main_body, api_main, worker_start, migrated,
}

abbrev pub same_resource : Resource → Resource → Bool
same_resource exporter exporter = true
same_resource pool pool = true
same_resource bus bus = true
same_resource redis_client redis_client = true
same_resource _ _ = false

abbrev pub is_opening : Resource → Event → Bool
is_opening r (opened s) = same_resource r s
is_opening r (closed s) = false
is_opening r (logged line) = false
is_opening r (traced name) = false

abbrev pub is_closing : Resource → Event → Bool
is_closing r (opened s) = false
is_closing r (closed s) = same_resource r s
is_closing r (logged line) = false
is_closing r (traced name) = false

abbrev is_deferred : Resource → Option Resource → Bool
is_deferred r none = false
is_deferred r (some s) = same_resource r s

module _ (r : Resource) where
  -- What is open has its Close deferred.
  abbrev Balanced : Process → Type 0
  Balanced p =
      count_where (is_opening r) p.events
      ≡ count_where (is_closing r) p.events + count_where (is_deferred r) p.deferred

  abbrev BalancedIfGoes : {A : Type 0} → Flow A × Process → Type 0
  BalancedIfGoes (goes a, p) = Balanced p
  BalancedIfGoes (exits, p) = Unit

  then-Balanced :
      {A B : Type 0} (out : Flow A × Process) (f : A → Main B)
      → BalancedIfGoes out
      → ((a : A) (p : Process) → Balanced p → BalancedIfGoes (f a p))
      → BalancedIfGoes (and_then out f)
  then-Balanced (goes a, p) f before rest = rest a p before
  then-Balanced (exits, p) f before rest = tt

  start_tracing-Balanced :
      (calls : Calls) (v : OtelVariables) (name : Text) (p : Process)
      → Balanced p
      → BalancedIfGoes (start_tracing calls v name p)
  unfolding start_tracing init after_init
  start_tracing-Balanced calls v name p before = ground (arith, before)

  start_pool-Balanced :
      (calls : Calls) (url : Text) (p : Process)
      → Balanced p
      → BalancedIfGoes (start_pool calls url p)
  unfolding start_pool new_pool
  start_pool-Balanced calls url p before = ground (arith, before)

  start_backend-Balanced :
      (calls : Calls) (b : Backend) (p : Process)
      → Balanced p
      → BalancedIfGoes (start_backend calls b p)
  unfolding start_backend open_client
  start_backend-Balanced calls missing p before = tt
  start_backend-Balanced calls no_op p before = before
  start_backend-Balanced calls (service_bus at_broker) p before = ground (arith, before)
  start_backend-Balanced calls (redis at_url) p before = ground (arith, before)

  listen-Balanced : (e : Ending) (p : Process) → Balanced p → BalancedIfGoes (listen e p)
  unfolding listen
  listen-Balanced listen_fails p before = tt
  listen-Balanced (signalled true) p before = omega (arith, before)
  listen-Balanced (signalled false) p before = omega (arith, before)

  migrate-Balanced : (done : Bool) (p : Process) → Balanced p → BalancedIfGoes (migrated done p)
  unfolding migrated
  migrate-Balanced true p before = before
  migrate-Balanced false p before = tt

  api_main_body-Balanced :
      (calls : Calls) (v : OtelVariables) (c : Config)
      → BalancedIfGoes (api_main_body calls v c nothing_yet)
  unfolding api_main_body
  api_main_body-Balanced calls v c =
      then-Balanced _ _ (start_tracing-Balanced calls v (codes "payflow-api") nothing_yet refl)
        λ _ p traced_p.
          then-Balanced _ _ (start_pool-Balanced calls c.database_url p traced_p) λ _ p pool_p.
            then-Balanced _ _ (migrate-Balanced calls.migrate p pool_p) λ _ p migrated_p.
              then-Balanced _ _ (start_backend-Balanced calls (api_backend c) p migrated_p)
                λ _. listen-Balanced calls.ending

  close_one-counts :
      (calls : Calls) (d : Option Resource) (events : List Event)
      → (count_where (is_opening r) (close_one calls d events) ≡ count_where (is_opening r) events)
        × (count_where (is_closing r) (close_one calls d events)
            ≡ count_where (is_closing r) events + (if is_deferred r d then 1 else 0))
  unfolding close_one
  close_one-counts calls none events = (refl, omega arith)
  close_one-counts calls (some exporter) events = ground arith
  close_one-counts calls (some pool) events = ground arith
  close_one-counts calls (some bus) events = ground arith
  close_one-counts calls (some redis_client) events = ground arith

  close_all-counts :
      (calls : Calls) (ds : List (Option Resource)) (events : List Event)
      → (count_where (is_opening r) (close_all calls ds events) ≡ count_where (is_opening r) events)
        × (count_where (is_closing r) (close_all calls ds events)
            ≡ count_where (is_closing r) events + count_where (is_deferred r) ds)
  unfolding close_all
  close_all-counts calls [] events = (refl, omega arith)
  close_all-counts calls (d ∷ ds) events =
      let one = close_one-counts calls d events in
      let rest = close_all-counts calls ds (close_one calls d events) in
      (rest.0 ∙ one.0, omega (arith, one.1, rest.1))

  run_main-Closes :
      (calls : Calls) (out : Flow ⊤ × Process) (events : List Event)
      → BalancedIfGoes out
      → run_main calls out ≡ (false, events)
      → count_where (is_closing r) events ≡ count_where (is_opening r) events
  unfolding run_main
  run_main-Closes calls (exits, p) events before h = absurd (ground arith)
  run_main-Closes calls (goes u, p) events before h =
      let counts = close_all-counts calls p.deferred p.events in
      let same : close_all calls p.deferred p.events ≡ events = ground arith in
      rw (← same, counts.0, counts.1) (omega (arith, before))

-- When main of cmd/api returns, it has closed the exporter of traces, the pool of the database, the bus
-- and the Redis client as often as it has opened them, whatever the calls of its libraries came to.
pub api_main-Closes :
    (calls : Calls) (v : OtelVariables) (c : Config) (events : List Event) (r : Resource)
    → api_main calls v c ≡ (false, events)
    → count_where (is_closing r) events ≡ count_where (is_opening r) events
unfolding api_main
api_main-Closes calls v c events r h =
    run_main-Closes r calls (api_main_body calls v c nothing_yet) events
      (api_main_body-Balanced r calls v c) h

-- When main of cmd/worker reaches its loop, what it has open has its Close deferred.
worker_start-Balanced :
    (calls : Calls) (v : OtelVariables) (c : Config) (r : Resource)
    → BalancedIfGoes r (worker_start calls v c)
unfolding worker_start
worker_start-Balanced calls v c r =
    then-Balanced r _ _ (start_tracing-Balanced r calls v (codes "payflow-worker") nothing_yet refl)
      λ _ p traced_p.
        then-Balanced r _ _ (start_pool-Balanced r calls c.database_url p traced_p) λ _ p pool_p.
          then-Balanced r _ _ (start_backend-Balanced r calls (worker_backend c) p pool_p)
            λ _ p client_p. omega (arith, client_p)
