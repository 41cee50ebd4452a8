-- ===== src/Webhook/Process/Rounds.antt =====
-- One round of ProcessDelivery (payflow-app/internal/webhook/webhook.go) when nothing fails.
use payflow_payments_ops_pla.Base.{
  ℕ, ◌+◌, ◌≡◌, true, false, none, some, [], ◌∷◌, find, leb, ◌==◌, List, arith, if◌then◌else◌,
}
use payflow_payments_ops_pla.Text.{Text, is_empty}
use payflow_payments_ops_pla.Store.{
  Db, Env, Delivery, Tenant, pending, dlq, is_pending, ok, stmt, transact,
}
use payflow_payments_ops_pla.Store.Faults.{at}
use payflow_payments_ops_pla.Queue.{World, Job, Request}
use payflow_payments_ops_pla.Webhook.{Net, has_delivery_id, tenant_of}
use payflow_payments_ops_pla.Webhook.Process.{
  Loaded, load, update_pending, delivered, attempted, failure_of, backoff_ms, request_for, back_off,
  after_reply, round,
}

-- The row of a delivery, its tenant and its secret.
pub record Ready (net : Net) (did : ℕ) (db : Db) (d : Delivery) (t : Tenant) (secret : Text)
    : Type 0 where
  pub found : find (has_delivery_id did) db.webhook_deliveries ≡ some d
  pub tenant : tenant_of d.tenant_id db ≡ some t
  pub has_secret : t.webhook_signing_secret ≡ some secret
  pub not_blank : is_empty secret ≡ false
  pub url : net.url_accepted d.target_url ≡ true

-- The limit that the loop works with.
abbrev pub limit : ℕ → Delivery → ℕ
limit default d = if d.max_attempts == 0 then default else d.max_attempts

abbrev pub loaded : Delivery → Text → Loaded
loaded d secret = record {
  target_url = d.target_url;
  secret = secret;
  attempt_count = d.attempt_count;
  max_attempts = d.max_attempts;
  payload = d.payload;
  status = d.status;
}

-- A world in which no call of the database fails.
abbrev pub world : Db → List Job → List Request → List ℕ → World
world db published sent waits = record {
  store = at db [];
  published = published;
  sent = sent;
  waits = waits;
}

module _ (net : Net) (env : Env) (default now n did : ℕ) (db : Db) (published : List Job)
    (sent : List Request) (waits : List ℕ) (d : Delivery) (t : Tenant) (secret : Text)
    (ready : Ready net did db d t secret) (waiting : is_pending d.status ≡ true)
    (room : leb (limit default d) d.attempt_count ≡ false) where
  pub round-delivered :
      failure_of (net.reply n) ≡ none
      → round net env default now n did (world db published sent waits) ≡ (
        ok false,
        world
            (update_pending did (delivered now) db)
            published
            (request_for net env n (loaded d secret) ∷ sent)
            waits,
      )
  unfolding round load stmt after_reply transact
  round-delivered good =
      ground (arith, ready.found, ready.tenant, ready.has_secret, ready.not_blank, ready.url)

  pub round-exhausted :
      (message : Text)
      → failure_of (net.reply n) ≡ some message
      → leb (limit default d) (d.attempt_count + 1) ≡ true
      → round net env default now n did (world db published sent waits) ≡ (
        ok false,
        world
            (update_pending did (attempted now (d.attempt_count + 1) message dlq) db)
            published
            (request_for net env n (loaded d secret) ∷ sent)
            waits,
      )
  unfolding round load stmt after_reply transact
  round-exhausted message bad last =
      ground (arith, ready.found, ready.tenant, ready.has_secret, ready.not_blank, ready.url)

  pub round-again :
      (message : Text)
      → failure_of (net.reply n) ≡ some message
      → leb (limit default d) (d.attempt_count + 1) ≡ false
      → net.cancelled n ≡ false
      → round net env default now n did (world db published sent waits) ≡ (
        ok true,
        world
            (update_pending did (attempted now (d.attempt_count + 1) message pending) db)
            published
            (request_for net env n (loaded d secret) ∷ sent)
            (backoff_ms (d.attempt_count + 1) ∷ waits),
      )
  unfolding round load stmt after_reply transact back_off
  round-again message bad more live =
      ground (arith, ready.found, ready.tenant, ready.has_secret, ready.not_blank, ready.url)
