-- ===== src/ServiceBus.antt =====
-- payflow-app/internal/queue/servicebus.go: the queues on Azure Service Bus.
pub mod Handles
pub mod Pop
use payflow_payments_ops_pla.Base.{
  ℕ, zero, suc, ◌+◌, ◌%◌, Bool, true, false, Option, none, some, List, [], ◌∷◌, ◌++◌, if◌then◌else◌,
  ◌==◌,
}
use payflow_payments_ops_pla.Text.{Text, codes, is_empty}
use payflow_payments_ops_pla.Store.{Env, Error, broker_failed, bad_uuid, no_job, Result, ok, err}
use payflow_payments_ops_pla.Queue.{
  Job, settlement_job, webhook_job, refund_job, default_settlement_key, default_webhook_key,
  default_refund_key,
}

-- azureQueueSettlement, azureQueueWebhook, azureQueueRefund.
abbrev pub azure_queue_settlement : Text
azure_queue_settlement = codes "settlement"

abbrev pub azure_queue_webhook : Text
azure_queue_webhook = codes "webhook"

abbrev pub azure_queue_refund : Text
azure_queue_refund = codes "refund"

-- The three Publish… methods: the queue and the body of the message that is sent.
unfoldable pub publish : Env → Job → Text × Text
publish env (settlement_job id) = (azure_queue_settlement, env.uuid_string id)
publish env (webhook_job id) = (azure_queue_webhook, env.uuid_string id)
publish env (refund_job id) = (azure_queue_refund, env.uuid_string id)

-- What the client and its senders and receivers are to each other: one handle for each field.
pub data Handle : Type 0 where
  client settlement_sender webhook_sender refund_sender : Handle
  settlement_recv webhook_recv refund_recv : Handle

-- Which of the fields of AzureServiceBus are not nil, the client apart.
pub record Bus : Type 0 where
  pub has_settlement_sender : Bool
  pub has_webhook_sender : Bool
  pub has_refund_sender : Bool
  pub has_settlement_recv : Bool
  pub has_webhook_recv : Bool
  pub has_refund_recv : Bool

abbrev only_if : Bool → Handle → List Handle
only_if true h = h ∷ []
only_if false h = []

-- closeSenders: the handles that it closes.
unfoldable pub close_senders : Bus → List Handle
close_senders b =
    only_if b.has_settlement_sender settlement_sender
    ++ (only_if b.has_webhook_sender webhook_sender ++ only_if b.has_refund_sender refund_sender)

-- closeSendersReceivers.
unfoldable pub close_senders_receivers : Bus → List Handle
close_senders_receivers b =
    close_senders b
    ++ (only_if b.has_settlement_recv settlement_recv
        ++ (only_if b.has_webhook_recv webhook_recv ++ only_if b.has_refund_recv refund_recv))

-- Close, of a bus that is not nil.
unfoldable pub close : Bus → List Handle
close b = close_senders_receivers b ++ (client ∷ [])

-- The error that closing a list of handles returns: the first one.
pub first_error : (Handle → Option Error) → List Handle → Option Error
first_error fails [] = none
first_error fails (h ∷ hs) =
    let later = first_error fails hs in elim (fails h) [ none ↦ later | some e ↦ some e ]

pub data Event : Type 0 where
  opened closed : Handle → Event

abbrev closings : List Handle → List Event
closings [] = []
closings (h ∷ hs) = closed h ∷ closings hs

-- One call of the client that opens a handle: if it fails, the cleanup and an error; else the rest.
abbrev try_open :
    (Handle → Bool) → Handle → List Handle → Option Bus × List Event → Option Bus × List Event
try_open fails h cleanup rest =
    if fails h then (none, closings cleanup) else (rest.0, opened h ∷ rest.1)

-- The bus with its first `n` handles.
abbrev pub bus_with : Bool → Bool → Bool → Bool → Bool → Bool → Bus
bus_with a b c d e f = record {
  has_settlement_sender = a;
  has_webhook_sender = b;
  has_refund_sender = c;
  has_settlement_recv = d;
  has_webhook_recv = e;
  has_refund_recv = f;
}

-- NewAzureServiceBusFromConnectionString: the bus, or an error, and what was opened and closed.
-- `fails` says which calls of the client fail.
unfoldable pub connect : Text → (Handle → Bool) → Option Bus × List Event
connect connection_string fails =
    if is_empty connection_string
    then (none, [])
    else try_open fails client [] (
        try_open fails settlement_sender (client ∷ []) (
          try_open fails webhook_sender
            (close_senders (bus_with true false false false false false) ++ (client ∷ []))
            (try_open fails refund_sender
              (close_senders (bus_with true true false false false false) ++ (client ∷ []))
              (try_open fails settlement_recv
                (close_senders (bus_with true true true false false false) ++ (client ∷ []))
                (try_open fails webhook_recv
                  (close_senders_receivers (bus_with true true true true false false)
                    ++ (client ∷ []))
                  (try_open fails refund_recv
                    (close_senders_receivers (bus_with true true true true true false)
                      ++ (client ∷ []))
                    (some (bus_with true true true true true true), [])))))))

-- What ReceiveMessages(ctx, 1) yields: a deadline or a cancellation; another error; no message; a
-- message, with whether CompleteMessage will succeed.
pub data Received : Type 0 where
  timed_out broken nothing : Received
  message : Text → Bool → Received

-- The receivers in the order of the code, each with its key.
pub data Receiver : Type 0 where
  settlement webhook refund : Receiver

abbrev pub key_of : Receiver → Text
key_of settlement = default_settlement_key
key_of webhook = default_webhook_key
key_of refund = default_refund_key

abbrev pub queue_of : Receiver → Text
queue_of settlement = azure_queue_settlement
queue_of webhook = azure_queue_webhook
queue_of refund = azure_queue_refund

-- receivers[idx].
abbrev pub receiver_at : ℕ → Receiver
receiver_at zero = settlement
receiver_at (suc zero) = webhook
receiver_at (suc (suc _)) = refund

-- What became of a message that was received.
pub data Ack : Type 0 where
  completed abandoned kept : Receiver → Ack

-- The body of the inner loop: `none` is `continue`.
unfoldable pub try_receive : Env → Receiver → Received → Option (Result (Text × ℕ) × List Ack)
try_receive env rec timed_out = none
try_receive env rec nothing = none
try_receive env rec broken = some (err broker_failed, [])
try_receive env rec (message body completes) = elim (env.uuid_parse body) [
  | none ↦ some (err bad_uuid, abandoned rec ∷ [])
  | some id ↦
      if completes
      then some (ok (key_of rec, id), completed rec ∷ [])
      else some (err broker_failed, kept rec ∷ [])
]

-- What the receivers yield in each round of the outer loop, and whether the round starts before the
-- deadline.
pub record Feed : Type 0 where
  pub received : ℕ → Receiver → Received
  pub in_time : ℕ → Bool

-- The inner loop, from index `i` on: `left` more receivers.
sweep : ℕ → Env → (Receiver → Received) → ℕ → ℕ → Option (Result (Text × ℕ) × List Ack)
sweep zero env received start i = none
sweep (suc left) env received start i =
    let rec = receiver_at ((start + i) % 3) in
    elim (try_receive env rec (received rec)) [
      | none ↦ sweep left env received start (i + 1)
      | some out ↦ some out
    ]

-- The outer loop, from round `n`; `none` means that the fuel ran out.
pop_rounds : ℕ → Env → Feed → ℕ → ℕ → Option (Result (Text × ℕ) × List Ack)
unfolding sweep
pop_rounds zero env feed n start = none
pop_rounds (suc fuel) env feed n start = elim (feed.in_time n) [
  | false ↦ some (err no_job, [])
  | true ↦ elim (sweep 3 env (feed.received n) start 0) [
    | none ↦ pop_rounds fuel env feed (n + 1) ((start + 1) % 3)
    | some out ↦ some out
  ]
]

-- BRPopJob.
unfoldable pub brpop_job : ℕ → Env → Feed → Option (Result (Text × ℕ) × List Ack)
unfolding pop_rounds
brpop_job fuel env feed = pop_rounds fuel env feed 0 0
