-- ===== src/Queue.antt =====
-- payflow-app/internal/queue/queue.go: the jobs, and the worker's state with what it published.
pub mod Keeps
use payflow_payments_ops_pla.Base.{
  ℕ, Bool, true, false, none, some, List, [], ◌∷◌, ⊤, if◌then◌else◌,
}
use payflow_payments_ops_pla.Text.{Text, codes, is_empty}
use payflow_payments_ops_pla.Store.{
  Env, Error, Result, ok, err, publish_failed, bad_uuid, no_job, broker_failed, redis_nil, Tx,
  TxState,
}

-- A message on the settlement, webhook or refund queue.
pub data Job : Type 0 where
  settlement_job webhook_job refund_job : ℕ → Job

-- One HTTP request that was sent.
pub record Request : Type 0 where
  pub target_url : Text
  pub timestamp : Text
  pub signature : Text
  pub body : Text

-- The store; the jobs published, the requests sent and the pauses made, in milliseconds, each with
-- the newest first.
pub record World : Type 0 where
  pub store : TxState
  pub published : List Job
  pub sent : List Request
  pub waits : List ℕ

abbrev pub W : Type 0 → Type 0
W A = World → Result A × World

module _ {A : Type 0} where
  abbrev pub pure : A → W A
  pure a w = (ok a, w)

  abbrev pub raise : Error → W A
  raise e w = (err e, w)

  -- A call of the database.
  abbrev pub lift : Tx A → W A
  lift m w = let (r, s) = m w.store in (r, record w { store = s })

  -- `_, _ = …`: the error is dropped.
  abbrev pub ignore : W A → W ⊤
  ignore m w = (ok tt, (m w).1)

abbrev pub and_then : {A B : Type 0} → Result A × World → (A → W B) → Result B × World
and_then (ok a, w) f = f a w
and_then (err e, w) f = (err e, w)

infixl 5 ◌>>=◌ ◌>>◌
abbrev pub ◌>>=◌ : {A B : Type 0} → W A → (A → W B) → W B
◌>>=◌ m f w = and_then (m w) f

abbrev pub ◌>>◌ : {A B : Type 0} → W A → W B → W B
m >> k = m >>= λ _. k

-- Publish…: the broker takes the message; or refuses it; or takes it and the reply is lost.
publish_with : List Bool → Job → World → Result ⊤ × World
publish_with [] job w = (ok tt, record w { published = job ∷ w.published })
publish_with (false ∷ rest) job w = (
  ok tt,
  record w { published = job ∷ w.published; store = record { db = w.store.db; faults = rest } },
)
publish_with (true ∷ []) job w =
    (err publish_failed, record w { store = record { db = w.store.db; faults = [] } })
publish_with (true ∷ false ∷ rest) job w =
    (err publish_failed, record w { store = record { db = w.store.db; faults = rest } })
publish_with (true ∷ true ∷ rest) job w = (
  err publish_failed,
  record w { published = job ∷ w.published; store = record { db = w.store.db; faults = rest } },
)

-- PublishPaymentSettlement, PublishWebhookDelivery and PublishRefundSettlement of *Redis.
unfoldable pub publish : Job → W ⊤
unfolding publish_with
publish job w = publish_with w.store.faults job w

-- The three methods of NoOpPublisher.
unfoldable pub no_op_publish : Job → W ⊤
no_op_publish job = pure tt

-- DefaultSettlementQueueKey, DefaultWebhookQueueKey, DefaultRefundQueueKey.
abbrev pub default_settlement_key : Text
default_settlement_key = codes "payflow:settlement_jobs"

abbrev pub default_webhook_key : Text
default_webhook_key = codes "payflow:webhook_jobs"

abbrev pub default_refund_key : Text
default_refund_key = codes "payflow:refund_jobs"

-- settlementKey, over the field Key.
unfoldable pub settlement_key : Text → Text
settlement_key key = if is_empty key then default_settlement_key else key

-- The list on which a Publish… method of *Redis with this Key pushes.
unfoldable pub list_of : Text → Job → Text
unfolding settlement_key
list_of key (settlement_job id) = settlement_key key
list_of key (webhook_job id) = default_webhook_key
list_of key (refund_job id) = default_refund_key

-- The reply of the client's BRPop.
pub data PopReply : Type 0 where
  timed_out broken : PopReply
  popped : List Text → PopReply

-- BRPopJob, after the call: the list and the UUID, or an error.
unfoldable pub brpop_job : Env → PopReply → Result (Text × ℕ)
brpop_job env timed_out = err no_job
brpop_job env broken = err broker_failed
brpop_job env (popped []) = err redis_nil
brpop_job env (popped (_ ∷ [])) = err redis_nil
brpop_job env (popped (key ∷ value ∷ _)) = elim (env.uuid_parse value) [
  | none ↦ err bad_uuid
  | some id ↦ ok (key, id)
]
