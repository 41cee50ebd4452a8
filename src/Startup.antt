-- ===== src/Startup.antt =====
-- The start and the end of the two programs: main of payflow-app/cmd/api/main.go and of
-- payflow-app/cmd/worker/main.go up to its loop, with Init of internal/tracing/tracing.go, NewPool of
-- internal/db/db.go, and NewRedis and Close of internal/queue/queue.go.
pub mod Closes
pub mod Server
use payflow_payments_ops_pla.Base.{
  ℕ, Bool, true, false, not, ◌&&◌, ◌||◌, Option, none, some, List, [], ◌∷◌, ⊤, ◌==◌, if◌then◌else◌,
}
use payflow_payments_ops_pla.Text.{Text, text_eq, codes, is_empty, trim_space}
use payflow_payments_ops_pla.Config.{
  Config, Backend, missing, no_op, service_bus, redis, api_backend, worker_backend, or_default,
}

-- What main opens and has to close.
pub data Resource : Type 0 where
  exporter pool bus redis_client : Resource

-- The lines of the log, by their message.
pub data Line : Type 0 where
  tracing_init_failed tracing_shutdown db_connect_failed migrate_failed : Line
  servicebus_config_missing servicebus_connect_failed redis_connect_failed : Line
  api_listen http_server_error http_shutdown_error worker_listening : Line

-- `traced` is otel.SetTracerProvider, with the name of the service.
pub data Event : Type 0 where
  opened closed : Resource → Event
  logged : Line → Event
  traced : Text → Event

-- How the end of cmd/api comes: ListenAndServe fails, or a signal arrives; then Shutdown may fail.
pub data Ending : Type 0 where
  listen_fails : Ending
  signalled : Bool → Ending

-- What the libraries and the database reply: whether each call succeeds.
pub record Calls : Type 0 where
  pub new_exporter : Text → Bool
  pub new_resource : Bool
  pub shutdown_provider : Bool
  pub parse_config : Text → Bool
  pub new_pool : Bool
  pub ping : Bool
  pub migrate : Bool
  pub connect_bus : Text → Bool
  pub parse_redis_url : Text → Bool
  pub ending : Ending

-- os.Getenv of the variables that Init reads.
pub record OtelVariables : Type 0 where
  pub sdk_disabled : Text
  pub exporter_endpoint : Text
  pub service_name : Text

-- The events, and the calls that are deferred, each with the newest first. A deferred call that does
-- nothing is `none`.
pub record Process : Type 0 where
  pub events : List Event
  pub deferred : List (Option Resource)

pub data Flow (A : Type 0) : Type 0 where
  exits : Flow A
  goes : A → Flow A

abbrev pub Main : Type 0 → Type 0
Main A = Process → Flow A × Process

abbrev pub emit : Event → Main ⊤
emit e p = (goes tt, record p { events = e ∷ p.events })

abbrev pub defer : Option Resource → Main ⊤
defer r p = (goes tt, record p { deferred = r ∷ p.deferred })

module _ {A : Type 0} where
  abbrev pub pure : A → Main A
  pure a p = (goes a, p)

  -- slog.Error and os.Exit(1), which runs no deferred call.
  abbrev pub exit_with : Line → Main A
  exit_with line p = (exits, record p { events = logged line ∷ p.events })

abbrev pub and_then : {A B : Type 0} → Flow A × Process → (A → Main B) → Flow B × Process
and_then (goes a, p) f = f a p
and_then (exits, p) f = (exits, p)

infixl 5 ◌>>=◌ ◌>>◌
abbrev pub ◌>>=◌ : {A B : Type 0} → Main A → (A → Main B) → Main B
◌>>=◌ m f p = and_then (m p) f

abbrev pub ◌>>◌ : {A B : Type 0} → Main A → Main B → Main B
m >> k = m >>= λ _. k

-- strings.EqualFold(t, "true"): no letter outside ASCII folds to one of these four.
equal_fold_true : Text → Bool
equal_fold_true (t ∷ r ∷ u ∷ e ∷ []) =
    (t == b't' || t == b'T')
    && (r == b'r' || r == b'R')
    && (u == b'u' || u == b'U')
    && (e == b'e' || e == b'E')
equal_fold_true _ = false

-- Init. `none` is an error; else the shutdown function, which is `some none` where it does nothing.
unfoldable pub init : Calls → OtelVariables → Text → Main (Option (Option Resource))
unfolding equal_fold_true
init calls v default_name =
    let endpoint = trim_space v.exporter_endpoint in
    let name = or_default (trim_space v.service_name) default_name in
    if equal_fold_true (trim_space v.sdk_disabled) || is_empty endpoint
    then pure (some none)
    else if not (calls.new_exporter endpoint)
    then pure none
    else (emit (opened exporter)
        >> (if not calls.new_resource
            then (emit (closed exporter) >> pure none)
            else (emit (traced name) >> pure (some (some exporter)))))

-- Lines 28 to 39 of the one main, 107 to 118 of the other.
after_init : Option (Option Resource) → Main ⊤
after_init none = emit (logged tracing_init_failed)
after_init (some shutdown) = defer shutdown

unfoldable pub start_tracing : Calls → OtelVariables → Text → Main ⊤
unfolding after_init
start_tracing calls v default_name = init calls v default_name >>= after_init

-- NewPool: whether it returns a pool.
unfoldable pub new_pool : Calls → Text → Main Bool
new_pool calls url =
    if not (calls.parse_config url && calls.new_pool)
    then pure false
    else (emit (opened pool)
        >> (if calls.ping then pure true else (emit (closed pool) >> pure false)))

unfoldable pub start_pool : Calls → Text → Main ⊤
start_pool calls url = do
  connected ← new_pool calls url
  if connected then defer (some pool) else exit_with db_connect_failed

-- What follows migrate.Up.
migrated : Bool → Main ⊤
migrated true = pure tt
migrated false = exit_with migrate_failed

-- A client that is opened, with its Close deferred.
open_client : Bool → Resource → Line → Main ⊤
open_client connected r failed =
    if connected then (emit (opened r) >> defer (some r)) else exit_with failed

-- The `switch` on the backend, of either main. NewRedis only parses the URL.
unfoldable pub start_backend : Calls → Backend → Main ⊤
unfolding open_client
start_backend calls missing = exit_with servicebus_config_missing
start_backend calls no_op = pure tt
start_backend calls (service_bus at_broker) =
    open_client (calls.connect_bus at_broker) bus servicebus_connect_failed
start_backend calls (redis at_url) =
    open_client (calls.parse_redis_url at_url) redis_client redis_connect_failed

-- The goroutine of ListenAndServe, and main after it: `api_listen`, then the end.
unfoldable pub listen : Ending → Main ⊤
listen listen_fails = emit (logged api_listen) >> exit_with http_server_error
listen (signalled true) = emit (logged api_listen)
listen (signalled false) = emit (logged api_listen) >> emit (logged http_shutdown_error)

-- A deferred call: shutdownTrace, which logs its error, or a Close.
close_one : Calls → Option Resource → List Event → List Event
close_one calls none events = events
close_one calls (some exporter) events =
    if calls.shutdown_provider
    then closed exporter ∷ events
    else logged tracing_shutdown ∷ closed exporter ∷ events
close_one calls (some r) events = closed r ∷ events

close_all : Calls → List (Option Resource) → List Event → List Event
unfolding close_one
close_all calls [] events = events
close_all calls (r ∷ rest) events = close_all calls rest (close_one calls r events)

-- A whole main: what it did, and whether it left by os.Exit.
run_main : Calls → Flow ⊤ × Process → Bool × List Event
unfolding close_all
run_main calls (exits, p) = (true, p.events)
run_main calls (goes _, p) = (false, close_all calls p.deferred p.events)

abbrev nothing_yet : Process
nothing_yet = record { events = []; deferred = [] }

api_main_body : Calls → OtelVariables → Config → Main ⊤
unfolding migrated
api_main_body calls v c = do
  start_tracing calls v (codes "payflow-api")
  start_pool calls c.database_url
  migrated calls.migrate
  start_backend calls (api_backend c)
  listen calls.ending

-- main of cmd/api.
unfoldable pub api_main : Calls → OtelVariables → Config → Bool × List Event
unfolding run_main api_main_body
api_main calls v c = run_main calls (api_main_body calls v c nothing_yet)

-- main of cmd/worker before its loop, which does not end.
unfoldable pub worker_start : Calls → OtelVariables → Config → Flow ⊤ × Process
worker_start calls v c =
    (do
      start_tracing calls v (codes "payflow-worker")
      start_pool calls c.database_url
      start_backend calls (worker_backend c)
      emit (logged worker_listening))
      nothing_yet
