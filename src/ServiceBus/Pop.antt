-- ===== src/ServiceBus/Pop.antt =====
-- BRPopJob of payflow-app/internal/queue/servicebus.go: which message it takes, and that it ends.
use payflow_payments_ops_pla.Base.{
  ℕ, zero, suc, ◌+◌, ◌<◌, ◌%◌, ◌≡◌, refl, ◌∙◌, inl, inr, true, false, Bool-cases, Option-cases,
  none, some, List, [], ◌∷◌, if◌then◌else◌, arith,
}
use native.Mathlib.Nat.{add-zero, zero-add}
use payflow_payments_ops_pla.Text.{Text, text_eq}
use payflow_payments_ops_pla.Store.{Env, no_job, Result, ok, err}
use payflow_payments_ops_pla.Queue.{Job, settlement_job, webhook_job, refund_job, list_of}
use payflow_payments_ops_pla.ServiceBus.{
  Received, message, Receiver, settlement, webhook, refund, key_of, queue_of, receiver_at, publish,
  Ack, completed, Feed, try_receive, sweep, pop_rounds, brpop_job,
}

-- What BRPopJob took: a message of this receiver in some round, whose body is the id, completed.
abbrev pub Took : Env → Feed → Text → ℕ → List Ack → Type 0
Took env feed key id acks =
    (rec : Receiver) × (n : ℕ) × (body : Text) × (feed.received n rec ≡ message body true)
    × (env.uuid_parse body ≡ some id)
    × (key ≡ key_of rec)
    × (acks ≡ completed rec ∷ [])

try_receive-ok :
    (env : Env) (rec : Receiver) (r : Received) (key : Text) (id : ℕ) (acks : List Ack)
    → try_receive env rec r ≡ some (ok (key, id), acks)
    → (body : Text) × (r ≡ message body true)
      × (env.uuid_parse body ≡ some id)
      × (key ≡ key_of rec)
      × (acks ≡ completed rec ∷ [])
unfolding try_receive
try_receive-ok env rec Received.timed_out key id acks h = absurd (ground arith)
try_receive-ok env rec Received.nothing key id acks h = absurd (ground arith)
try_receive-ok env rec Received.broken key id acks h = absurd (ground arith)
try_receive-ok env rec (message body false) key id acks h = absurd (ground arith)
try_receive-ok env rec (message body true) key id acks h =
    elim (Option-cases (env.uuid_parse body)) [
      | inl bad ↦ absurd (ground arith)
      | inr (x, good) ↦ (body, refl, ground arith, ground arith, ground arith)
    ]

sweep-ok :
    (left : ℕ) (env : Env) (feed : Feed) (n start i : ℕ) (key : Text) (id : ℕ) (acks : List Ack)
    → sweep left env (feed.received n) start i ≡ some (ok (key, id), acks)
    → Took env feed key id acks
unfolding sweep
sweep-ok zero env feed n start i key id acks h = absurd (ground arith)
sweep-ok (suc left) env feed n start i key id acks h =
    let rec = receiver_at ((start + i) % 3) in
    elim (Option-cases (try_receive env rec (feed.received n rec))) [
      | inl again ↦
          let rest : sweep left env (feed.received n) start (i + 1) ≡ some (ok (key, id), acks) =
            ground arith in
          sweep-ok left env feed n start (i + 1) key id acks rest
      | inr (out, taken) ↦
          let here : try_receive env rec (feed.received n rec) ≡ some (ok (key, id), acks) =
            ground arith in
          let got = try_receive-ok env rec (feed.received n rec) key id acks here in
          (rec, n, got.0, got.1, got.2, got.3, got.4)
    ]

pop_rounds-ok :
    (fuel : ℕ) (env : Env) (feed : Feed) (n start : ℕ) (key : Text) (id : ℕ) (acks : List Ack)
    → pop_rounds fuel env feed n start ≡ some (ok (key, id), acks)
    → Took env feed key id acks
unfolding pop_rounds
pop_rounds-ok zero env feed n start key id acks h = absurd (ground arith)
pop_rounds-ok (suc fuel) env feed n start key id acks h = elim (Bool-cases (feed.in_time n)) [
  | inl live ↦ elim (Option-cases (sweep 3 env (feed.received n) start 0)) [
    | inl empty ↦
        let rest : pop_rounds fuel env feed (n + 1) ((start + 1) % 3) ≡ some (ok (key, id), acks) =
          ground arith in
        pop_rounds-ok fuel env feed (n + 1) ((start + 1) % 3) key id acks rest
    | inr (out, taken) ↦
        let here : sweep 3 env (feed.received n) start 0 ≡ some (ok (key, id), acks) =
          ground arith in
        sweep-ok 3 env feed n start 0 key id acks here
  ]
  | inr late ↦ absurd (ground arith)
]

pop_rounds-late :
    (fuel : ℕ) (env : Env) (feed : Feed) (n start : ℕ)
    → feed.in_time n ≡ false
    → pop_rounds (suc fuel) env feed n start ≡ some (err no_job, [])
unfolding pop_rounds
pop_rounds-late fuel env feed n start late = ground arith

pop_rounds-taken :
    (fuel : ℕ) (env : Env) (feed : Feed) (n start : ℕ) (out : Result (Text × ℕ) × List Ack)
    → feed.in_time n ≡ true
    → sweep 3 env (feed.received n) start 0 ≡ some out
    → pop_rounds (suc fuel) env feed n start ≡ some out
unfolding pop_rounds
pop_rounds-taken fuel env feed n start out live taken = ground arith

pop_rounds-next :
    (fuel : ℕ) (env : Env) (feed : Feed) (n start : ℕ)
    → feed.in_time n ≡ true
    → sweep 3 env (feed.received n) start 0 ≡ none
    → pop_rounds (suc fuel) env feed n start ≡ pop_rounds fuel env feed (n + 1) ((start + 1) % 3)
unfolding pop_rounds
pop_rounds-next fuel env feed n start live empty = ground arith

pop_rounds-ends :
    (k fuel : ℕ) (env : Env) (feed : Feed) (n start : ℕ)
    → k < fuel
    → feed.in_time (n + k) ≡ false
    → (out : Result (Text × ℕ) × List Ack) × (pop_rounds fuel env feed n start ≡ some out)
pop_rounds-ends k zero env feed n start more late = elim more [ ]
pop_rounds-ends zero (suc fuel) env feed n start more late =
    (_, pop_rounds-late fuel env feed n start (rw add-zero at late))
pop_rounds-ends (suc k) (suc fuel) env feed n start more late = elim (Bool-cases (feed.in_time n)) [
  | inr over ↦ (_, pop_rounds-late fuel env feed n start over)
  | inl live ↦ elim (Option-cases (sweep 3 env (feed.received n) start 0)) [
    | inr (out, taken) ↦ (out, pop_rounds-taken fuel env feed n start out live taken)
    | inl empty ↦
        let shift : n + suc k ≡ n + 1 + k = omega arith in
        let (out, run) =
          pop_rounds-ends k fuel env feed (n + 1) ((start + 1) % 3) (omega arith)
            (rw shift at late) in
        (out, pop_rounds-next fuel env feed n start live empty ∙ run)
  ]
]

-- Where the deadline has passed before round `k`, BRPopJob returns within `k + 1` rounds.
pub brpop_job-ends :
    (k fuel : ℕ) (env : Env) (feed : Feed)
    → k < fuel
    → feed.in_time k ≡ false
    → (out : Result (Text × ℕ) × List Ack) × (brpop_job fuel env feed ≡ some out)
unfolding brpop_job
brpop_job-ends k fuel env feed more late =
    pop_rounds-ends k fuel env feed 0 0 more (rw zero-add late)

-- A job that BRPopJob returns is the id in a message of the receiver for the key, in some round; it
-- completed this message and touched no other.
pub brpop_job-Took :
    (fuel : ℕ) (env : Env) (feed : Feed) (key : Text) (id : ℕ) (acks : List Ack)
    → brpop_job fuel env feed ≡ some (ok (key, id), acks)
    → Took env feed key id acks
unfolding brpop_job
brpop_job-Took fuel env feed key id acks run = pop_rounds-ok fuel env feed 0 0 key id acks run

abbrev pub id_of : Job → ℕ
id_of (settlement_job id) = id
id_of (webhook_job id) = id
id_of (refund_job id) = id

abbrev pub receiver_of : Job → Receiver
receiver_of (settlement_job _) = settlement
receiver_of (webhook_job _) = webhook
receiver_of (refund_job _) = refund

-- What a receiver yields when the one message of the namespace is that of a job.
abbrev pub holds : Env → Job → Receiver → Received
holds env job rec =
    if text_eq (queue_of rec) (publish env job).0
    then message (publish env job).1 true
    else Received.nothing

-- Where the only message is the one that a Publish… method sent for a job, and the first round begins
-- before the deadline, BRPopJob completes it and returns the job's id under the key on whose list the Redis backend would push the job, so that the
-- worker's switch is the same for both. The UUID must parse back from its text.
pub brpop_job-publish :
    (fuel : ℕ) (env : Env) (job : Job) (feed : Feed)
    → feed.in_time 0 ≡ true
    → ((rec : Receiver) → feed.received 0 rec ≡ holds env job rec)
    → env.uuid_parse (env.uuid_string (id_of job)) ≡ some (id_of job)
    → brpop_job (suc fuel) env feed
      ≡ some (ok (list_of [] job, id_of job), completed (receiver_of job) ∷ [])
unfolding brpop_job try_receive publish list_of
brpop_job-publish fuel env (settlement_job id) feed live only back =
    ground (arith, only settlement, only webhook, only refund)
brpop_job-publish fuel env (webhook_job id) feed live only back =
    ground (arith, only settlement, only webhook, only refund)
brpop_job-publish fuel env (refund_job id) feed live only back =
    ground (arith, only settlement, only webhook, only refund)
