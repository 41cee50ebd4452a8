-- ===== src/Webhook/Once.antt =====
-- The two Enqueue… of payflow-app/internal/webhook/webhook.go, called again for one event.
use payflow_payments_ops_pla.Base.{
  ℕ, ◌≡◌, refl, ◌∙◌, inl, inr, Bool, true, false, some, List, [], ◌∷◌, any, Bool-cases, arith, ⊤,
  if◌then◌else◌,
}
use payflow_payments_ops_pla.Text.{text_eq_refl}
use payflow_payments_ops_pla.Store.{
  Db, Env, Draw, Payment, Refund, Tenant, Delivery, Result, ok, stmt, transact,
}
use payflow_payments_ops_pla.Store.Faults.{at}
use payflow_payments_ops_pla.Queue.{W, World, Job, Request, webhook_job}
use payflow_payments_ops_pla.Webhook.{
  same_merchant_key, has_delivery_id, insert_delivery, settled_delivery, refunded_delivery,
  settled_row, refunded_row, has_hook, enqueue, enqueue_payment_settled, enqueue_refund_succeeded,
}
use payflow_payments_ops_pla.Webhook.Process.Rounds.{world}

abbrev pub is_enqueued : Delivery → Db → Bool
is_enqueued d db =
    any (same_merchant_key d.tenant_id d.merchant_idempotency_key) db.webhook_deliveries

abbrev pub with_delivery : Delivery → Db → Db
with_delivery d db = record db { webhook_deliveries = d ∷ db.webhook_deliveries }

module _ (publish : Job → W ⊤) (d : Delivery) (db : Db) (published : List Job) (sent : List Request)
    (waits : List ℕ) where
  enqueue-there :
      is_enqueued d db ≡ true
      → enqueue publish d (world db published sent waits) ≡ (ok tt, world db published sent waits)
  unfolding enqueue insert_delivery stmt transact
  enqueue-there there = ground (arith, there)

  enqueue-new :
      is_enqueued d db ≡ false
      → any (has_delivery_id d.id) db.webhook_deliveries ≡ false
      → enqueue publish d (world db published sent waits)
        ≡ publish (webhook_job d.id) (world (with_delivery d db) published sent waits)
  unfolding enqueue insert_delivery stmt transact
  enqueue-new missing fresh = ground (arith, missing, fresh)

is_enqueued-with_delivery : (d : Delivery) (db : Db) → is_enqueued d (with_delivery d db) ≡ true
is_enqueued-with_delivery d db = ground (arith, text_eq_refl d.merchant_idempotency_key)

module _ (env : Env) (draw : Draw) (publish : Job → W ⊤) (db : Db) (published : List Job)
    (sent : List Request) (waits : List ℕ) where
  settled-enqueue :
      (pid : ℕ) (p : Payment) (t : Tenant)
      → settled_row pid db ≡ some (p, t)
      → has_hook t ≡ true
      → enqueue_payment_settled env draw publish pid (world db published sent waits)
        ≡ enqueue publish (settled_delivery env draw p t) (world db published sent waits)
  unfolding enqueue_payment_settled stmt
  settled-enqueue pid p t row hook = rw (row, hook) refl

  refunded-enqueue :
      (rid : ℕ) (r : Refund) (t : Tenant)
      → refunded_row rid db ≡ some (r, t)
      → has_hook t ≡ true
      → enqueue_refund_succeeded env draw publish rid (world db published sent waits)
        ≡ enqueue publish (refunded_delivery env draw r t) (world db published sent waits)
  unfolding enqueue_refund_succeeded stmt
  refunded-enqueue rid r t row hook = rw (row, hook) refl

-- The tables after an enqueue: with the new row, or as before if the row is there.
abbrev pub after_enqueue : Delivery → Db → Db
after_enqueue d db = if is_enqueued d db then db else with_delivery d db

-- The first enqueue: the new row, and then the publisher; or nothing, if the row is there.
abbrev pub first_enqueue : (Job → W ⊤) → Delivery → Db → World → Result ⊤ × World
first_enqueue publish d db w =
    if is_enqueued d db
    then (ok tt, w)
    else publish (webhook_job d.id) (record w { store = at (with_delivery d db) [] })

enqueue-first :
    (publish : Job → W ⊤) (d : Delivery) (db : Db) (published : List Job) (sent : List Request)
    (waits : List ℕ)
    → any (has_delivery_id d.id) db.webhook_deliveries ≡ false
    → ((job : Job) (w : World) → (publish job w).1.store.db ≡ w.store.db)
    → (enqueue publish d (world db published sent waits)
        ≡ first_enqueue publish d db (world db published sent waits))
      × ((first_enqueue publish d db (world db published sent waits)).1.store.db
          ≡ after_enqueue d db)
      × (is_enqueued d (after_enqueue d db) ≡ true)
enqueue-first publish d db published sent waits fresh quiet = elim (Bool-cases (is_enqueued d db)) [
  | inl there ↦ (
    rw there (enqueue-there publish d db published sent waits there),
    rw there refl,
    rw there there,
  )
  | inr missing ↦ (
    rw missing (enqueue-new publish d db published sent waits missing fresh),
    rw missing (quiet (webhook_job d.id) (world (with_delivery d db) published sent waits)),
    rw missing (is_enqueued-with_delivery d db),
  )
]

settled_row-after :
    (pid : ℕ) (d : Delivery) (db : Db) → settled_row pid (after_enqueue d db) ≡ settled_row pid db
unfolding settled_row
settled_row-after pid d db = elim (Bool-cases (is_enqueued d db)) [
  | inl h ↦ rw h refl
  | inr h ↦ rw h refl
]

refunded_row-after :
    (rid : ℕ) (d : Delivery) (db : Db) → refunded_row rid (after_enqueue d db) ≡ refunded_row rid db
unfolding refunded_row
refunded_row-after rid d db = elim (Bool-cases (is_enqueued d db)) [
  | inl h ↦ rw h refl
  | inr h ↦ rw h refl
]

-- A payment that succeeded, and whose tenant has a URL and a secret, is enqueued with a fresh id
-- while the database works, by a publisher that may fail and may use up failures of the World but
-- leaves the tables alone. Where no delivery for the event is there, the delivery is written and then
-- the publisher is called with its job, whose reply is returned; where one is there, nothing changes
-- and nothing is published. Afterwards the tables are those of before with the delivery in them; and
-- a second call for the payment over them, with any publisher, changes nothing and publishes nothing.
pub enqueue_payment_settled-once :
    (env : Env) (draw later : Draw) (publish publish2 : Job → W ⊤) (pid : ℕ) (db : Db)
    (published again : List Job) (sent : List Request) (waits : List ℕ) (p : Payment) (t : Tenant)
    → settled_row pid db ≡ some (p, t)
    → has_hook t ≡ true
    → any (has_delivery_id draw.row_id) db.webhook_deliveries ≡ false
    → ((job : Job) (w : World) → (publish job w).1.store.db ≡ w.store.db)
    → let d = settled_delivery env draw p t in
      let db' = after_enqueue d db in
      (enqueue_payment_settled env draw publish pid (world db published sent waits)
        ≡ first_enqueue publish d db (world db published sent waits))
      × ((enqueue_payment_settled env draw publish pid (world db published sent waits)).1.store.db
          ≡ db')
      × (is_enqueued d db' ≡ true)
      × (enqueue_payment_settled env later publish2 pid (world db' again sent waits)
          ≡ (ok tt, world db' again sent waits))
enqueue_payment_settled-once env draw later publish publish2 pid db published again sent waits p t
      row hook fresh quiet =
    let d = settled_delivery env draw p t in
    let db' = after_enqueue d db in
    let first = enqueue-first publish d db published sent waits fresh quiet in
    (
      settled-enqueue env draw publish db published sent waits pid p t row hook ∙ first.0,
      rw (settled-enqueue env draw publish db published sent waits pid p t row hook ∙ first.0)
          first.1,
      first.2,
      settled-enqueue env later publish2 db' again sent waits pid p t
            (settled_row-after pid d db ∙ row) hook
          ∙ enqueue-there publish2 (settled_delivery env later p t) db' again sent waits first.2,
    )

-- A refund that succeeded, and whose tenant has a URL and a secret, is enqueued with a fresh id
-- while the database works, by a publisher that may fail and may use up failures of the World but
-- leaves the tables alone. Where no delivery for the event is there, the delivery is written and then
-- the publisher is called with its job, whose reply is returned; where one is there, nothing changes
-- and nothing is published. Afterwards the tables are those of before with the delivery in them; and
-- a second call for the refund over them, with any publisher, changes nothing and publishes nothing.
pub enqueue_refund_succeeded-once :
    (env : Env) (draw later : Draw) (publish publish2 : Job → W ⊤) (rid : ℕ) (db : Db)
    (published again : List Job) (sent : List Request) (waits : List ℕ) (r : Refund) (t : Tenant)
    → refunded_row rid db ≡ some (r, t)
    → has_hook t ≡ true
    → any (has_delivery_id draw.row_id) db.webhook_deliveries ≡ false
    → ((job : Job) (w : World) → (publish job w).1.store.db ≡ w.store.db)
    → let d = refunded_delivery env draw r t in
      let db' = after_enqueue d db in
      (enqueue_refund_succeeded env draw publish rid (world db published sent waits)
        ≡ first_enqueue publish d db (world db published sent waits))
      × ((enqueue_refund_succeeded env draw publish rid (world db published sent waits)).1.store.db
          ≡ db')
      × (is_enqueued d db' ≡ true)
      × (enqueue_refund_succeeded env later publish2 rid (world db' again sent waits)
          ≡ (ok tt, world db' again sent waits))
enqueue_refund_succeeded-once env draw later publish publish2 rid db published again sent waits r t
      row hook fresh quiet =
    let d = refunded_delivery env draw r t in
    let db' = after_enqueue d db in
    let first = enqueue-first publish d db published sent waits fresh quiet in
    (
      refunded-enqueue env draw publish db published sent waits rid r t row hook ∙ first.0,
      rw (refunded-enqueue env draw publish db published sent waits rid r t row hook ∙ first.0)
          first.1,
      first.2,
      refunded-enqueue env later publish2 db' again sent waits rid r t
            (refunded_row-after rid d db ∙ row) hook
          ∙ enqueue-there publish2 (refunded_delivery env later r t) db' again sent waits first.2,
    )
