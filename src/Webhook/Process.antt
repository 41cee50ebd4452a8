-- ===== src/Webhook/Process.antt =====
-- ProcessDelivery of payflow-app/internal/webhook/webhook.go: the attempts at one delivery.
pub mod Rounds
pub mod Final
pub mod Outcome
pub mod Calls
pub mod Ends
pub mod Keeps
use payflow_payments_ops_pla.Base.{
  ℕ, zero, suc, ◌+◌, ◌*◌, ◌^◌, Bool, true, false, not, ◌&&◌, Option, none, some, ◌∷◌, ◌++◌, find,
  update_where, ⊤, ltb, leb, ◌==◌, if◌then◌else◌,
}
use payflow_payments_ops_pla.Text.{Text, is_empty, codes, decimal}
use payflow_payments_ops_pla.Store.{
  Db, Env, Delivery, Status, pending, succeeded, dlq, is_pending, Object, Result, ok, err, db_error,
  bad_request, context_done, stmt, exec, transact,
}
use payflow_payments_ops_pla.Queue.{W, Request, pure, raise, lift, ignore, ◌>>=◌, ◌>>◌}
use payflow_payments_ops_pla.Webhook.{
  HttpReply, failed, status, Net, sign, has_delivery_id, tenant_of,
}

-- What one round reads.
pub record Loaded : Type 0 where
  pub target_url : Text
  pub secret : Text
  pub attempt_count : ℕ
  pub max_attempts : ℕ
  pub payload : Object
  pub status : Status

-- The join of webhook_deliveries and tenants. A secret that is NULL cannot be scanned.
unfoldable pub load : ℕ → Db → Result (Option Loaded) × Db
load did db = elim (find (has_delivery_id did) db.webhook_deliveries) [
  | none ↦ (ok none, db)
  | some d ↦ elim (tenant_of d.tenant_id db) [
    | none ↦ (ok none, db)
    | some t ↦ elim t.webhook_signing_secret [
      | none ↦ (err db_error, db)
      | some secret ↦ (
        ok (
            some (record {
              target_url = d.target_url;
              secret = secret;
              attempt_count = d.attempt_count;
              max_attempts = d.max_attempts;
              payload = d.payload;
              status = d.status;
            })),
        db,
      )
    ]
  ]
]

-- UPDATE webhook_deliveries SET … WHERE id = $1 AND status = 'pending'.
abbrev pub update_pending : ℕ → (Delivery → Delivery) → Db → Db
update_pending did change db = record db {
  webhook_deliveries =
      update_where (λ d. has_delivery_id did d && is_pending d.status) change db.webhook_deliveries;
}

abbrev pub parked : ℕ → Delivery → Delivery
parked now d = record d { status = dlq; updated_at = now }

abbrev pub parked_without_secret : ℕ → Delivery → Delivery
parked_without_secret now d = record d {
  status = dlq;
  last_error = codes "missing_webhook_signing_secret";
  updated_at = now;
}

abbrev pub delivered : ℕ → Delivery → Delivery
delivered now d = record d { status = succeeded; updated_at = now }

abbrev pub attempted : ℕ → ℕ → Text → Status → Delivery → Delivery
attempted now count message st d = record d {
  attempt_count = count;
  last_error = message;
  status = st;
  updated_at = now;
}

-- `none` if the reply is 2xx, else the message to keep.
unfoldable pub failure_of : HttpReply → Option Text
failure_of (failed message) = some message
failure_of (status code) =
    if leb 200 code && ltb code 300 then none else some (codes "http_" ++ decimal code)

-- The package's own min, and the pause after a failed attempt, in milliseconds.
unfoldable pub min : ℕ → ℕ → ℕ
min a b = if ltb a b then a else b

unfoldable pub backoff_ms : ℕ → ℕ
backoff_ms attempts = 50 * 2 ^ min attempts 6

unfoldable pub request_for : Net → Env → ℕ → Loaded → Request
request_for net env n l =
    let timestamp = decimal (net.unix_time n) in
    let body = env.jsonb_text l.payload in
    record {
      target_url = l.target_url;
      timestamp = timestamp;
      signature = sign net l.secret timestamp body;
      body = body;
    }

abbrev send : Request → W ⊤
send request w = (ok tt, record w { sent = request ∷ w.sent })

abbrev pause : ℕ → W ⊤
pause ms w = (ok tt, record w { waits = ms ∷ w.waits })

abbrev pub status_after : ℕ → ℕ → Status
status_after attempts limit = if leb limit attempts then dlq else pending

-- The `select` at the end of the loop body: whether there is another round.
unfoldable pub back_off : Net → ℕ → ℕ → W Bool
back_off net n attempts =
    if net.cancelled n then raise context_done else (pause (backoff_ms attempts) >> pure true)

-- What follows the reply: `false` is `return nil`.
unfoldable pub after_reply : Net → ℕ → ℕ → ℕ → ℕ → ℕ → Option Text → W Bool
after_reply net now n did limit count none = do
  lift (transact (exec (update_pending did (delivered now))))
  pure false
after_reply net now n did limit count (some message) = do
  let attempts = count + 1
  lift (
      transact
        (exec (update_pending did (attempted now attempts message (status_after attempts limit)))))
  if leb limit attempts then pure false else back_off net n attempts

abbrev pub limit_of : ℕ → Loaded → ℕ
limit_of default l = if l.max_attempts == 0 then default else l.max_attempts

-- The body of the loop after the row is read.
unfoldable pub attempt : Net → Env → ℕ → ℕ → ℕ → ℕ → Option Loaded → W Bool
attempt net env default now n did none = pure false
attempt net env default now n did (some l) =
    if not (is_pending l.status)
    then pure false
    else if leb (limit_of default l) l.attempt_count
    then (ignore (lift (transact (exec (update_pending did (parked now))))) >> pure false)
    else if is_empty l.secret
    then (ignore (lift (transact (exec (update_pending did (parked_without_secret now)))))
        >> pure false)
    else if not (net.url_accepted l.target_url)
    then raise bad_request
    else do
      send (request_for net env n l)
      after_reply net now n did (limit_of default l) l.attempt_count (failure_of (net.reply n))

-- One round; `true` asks for another.
unfoldable pub round : Net → Env → ℕ → ℕ → ℕ → ℕ → W Bool
unfolding attempt
round net env default now n did = do
  row ← lift (stmt (load did))
  attempt net env default now n did row

-- The loop, from round `n`; `none` means that the fuel ran out.
unfoldable pub rounds : ℕ → Net → Env → ℕ → ℕ → ℕ → ℕ → W (Option ⊤)
rounds zero net env default now n did w = (ok none, w)
rounds (suc fuel) net env default now n did w =
    let (r, w') = round net env default now n did w in
    elim r [
      | err e ↦ (err e, w')
      | ok again ↦ elim again [
        | true ↦ rounds fuel net env default now (n + 1) did w'
        | false ↦ (ok (some tt), w')
      ]
    ]

-- ProcessDelivery.
unfoldable pub process_delivery : ℕ → Net → Env → ℕ → ℕ → ℕ → W (Option ⊤)
process_delivery fuel net env default now did =
    rounds fuel net env (if default == 0 then 5 else default) now 0 did
