-- ===== src/System.antt =====
-- The two programs on one database: cmd/api (payflow-app/internal/httpapi calls the services) and
-- cmd/worker. A step is one transaction of one of them, with any failures of the driver.
pub mod Kept
pub mod Entries
pub mod Refunds
pub mod Settlement
pub mod Account
pub mod Refinement
pub mod Beside
pub mod Waiting
pub mod Requests
pub mod Rounds
pub mod Programs
pub mod Drain
pub mod Books
use payflow_payments_ops_pla.Base.{ℕ, ◌<◌, ◌^◌, ◌≡◌, ℤ, pos_part, Bool, List, []}
use payflow_payments_ops_pla.Text.{Text}
use payflow_payments_ops_pla.Store.{Db, Env, Draw, Payment, LedgerEvent, Refund, OutboxRow}
use payflow_payments_ops_pla.Store.Faults.{at}
use payflow_payments_ops_pla.Payment
use payflow_payments_ops_pla.Refund
use payflow_payments_ops_pla.Worker

-- The tables of payments, refunds, ledger and outbox.
pub record Core : Type 0 where
  pub payments : List Payment
  pub ledger_events : List LedgerEvent
  pub next_event : ℕ
  pub refunds : List Refund
  pub async_outbox : List OutboxRow

abbrev pub core : Db → Core
core db = record {
  payments = db.payments;
  ledger_events = db.ledger_events;
  next_event = db.next_event;
  refunds = db.refunds;
  async_outbox = db.async_outbox;
}

-- `create_payment` asks for less than 2 ^ 62 cents. `beside` is a transaction on the other tables:
-- tenants, keys, users, deliveries and audit.
pub data Step (env : Env) (db db' : Db) : Type 0 where
  create_payment :
      (draw : Draw) (tid : ℕ) (key : Text) (amount : ℤ) (raw : Text) (fs : List Bool)
      → pos_part amount < 2 ^ 62
      → db' ≡ (Payment.create env draw tid key amount raw (at db fs)).1.db
      → Step env db db'
  create_refund :
      (draw : Draw) (tid pid : ℕ) (key : Text) (amount : ℤ) (fs : List Bool)
      → db' ≡ (Refund.create env draw tid pid key amount (at db fs)).1.db
      → Step env db db'
  settle_payment :
      (now pid : ℕ) (fs : List Bool)
      → db' ≡ (Payment.settle_mock now pid (at db fs)).1.db
      → Step env db db'
  settle_refund :
      (now rid : ℕ) (fs : List Bool)
      → db' ≡ (Refund.settle_mock env now rid (at db fs)).1.db
      → Step env db db'
  process_outbox :
      (locked : ℕ → Bool) (now : ℕ) (fs : List Bool)
      → db' ≡ (Worker.try_process_outbox env locked now (at db fs)).1.db
      → Step env db db'
  beside : core db' ≡ core db → Step env db db'

pub data Reach (env : Env) (db : Db) : Db → Type 0 where
  here : Reach env db db
  next : {mid after : Db} → Reach env db mid → Step env mid after → Reach env db after

-- The tables after the migrations.
abbrev pub empty_db : Db
empty_db = record {
  tenants = [];
  api_keys = [];
  dashboard_users = [];
  payments = [];
  ledger_events = [];
  next_event = 1;
  refunds = [];
  async_outbox = [];
  webhook_deliveries = [];
  audit_events = [];
}
