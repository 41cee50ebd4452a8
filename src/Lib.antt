-- ===== src/Lib.antt =====
-- PayFlow: a payments API and an asynchronous worker over one Postgres database, in Go.
--
-- cmd/api answers HTTP requests and calls the services; cmd/worker settles what the services put
-- into the outbox, and delivers webhooks. Both write the same tables, each operation in a
-- transaction of its own. A payment is created pending, with a ledger entry, an audit entry and an
-- outbox row; the worker takes the outbox row, marks the payment succeeded and enqueues a webhook
-- delivery; a refund goes the same way from a payment that succeeded.
--
-- Files (paths under payflow-app/):
--   Base, Text         shared: tests, tables as lists, int64, Go strings as lists of code points
--   Store              internal/migrate/sql/*.up.sql: a record per table (Store/Rows), the
--                      transactions of pgx (Store/Transactions). Store/Faults and Store/Atomic say
--                      what failures of the driver do to them, Store/Keeps what an invariant needs
--   Ledger             internal/ledger/ledger.go: append is Append, list_by_payment is ListByPayment
--   Audit, Outbox      internal/audit/audit.go (Write), internal/outbox/outbox.go (Insert...)
--   Payment            internal/payment/payment.go, fingerprint.go: is_valid_create is
--                      validateCreate, create is Create, get is Get, settle_mock_tx is SettleMockTx,
--                      settle_mock is SettleMock
--   Refund             internal/refund/refund.go, likewise
--   Queue              internal/queue/queue.go: publish, no_op_publish, list_of, brpop_job
--   Webhook            internal/webhook/webhook.go: the two Enqueue...IfNeeded; Webhook/Query has
--                      ListDeliveries and GetDelivery, Webhook/Process has ProcessDelivery
--   ApiKeys            internal/auth/apikey.go: authenticate is MiddlewareAPIKey up to the next handler
--   Tenants            internal/tenant/tenant.go: create_tenant is CreateTenantWithAPIKey,
--                      revoke_api_key is RevokeAPIKey, list_api_keys is ListAPIKeys
--   Auth               internal/auth/context.go and jwt.go: parse_dashboard_bearer is
--                      ParseDashboardBearer, sign_dashboard_token is SignDashboardToken
--   ServiceBus         internal/queue/servicebus.go: connect is
--                      NewAzureServiceBusFromConnectionString, brpop_job is BRPopJob
--   Config             internal/config/config.go (Load, SplitComma), and which broker cmd/api/main.go and
--                      cmd/worker/main.go choose
--   Http               internal/httpapi: the monad of a handler. Http/Accounts, Http/Payments and
--                      Http/Deliveries have the handlers, Http/Middleware what stands in front of them,
--                      Http/Router the routes. Http/Keeps says what an invariant needs of a handler;
--                      Http/Isolation and Http/Reads are about the rows of each tenant
--   Worker             cmd/worker/main.go: tryProcessOutbox; Worker/Loop has a round of the loop
--   Migrate            internal/migrate/migrate.go: up is Up, over any database
--   Startup            cmd/api/main.go, and cmd/worker/main.go up to its loop: api_main is main, with Init
--                      of internal/tracing/tracing.go and NewPool of internal/db/db.go; Startup/Server is
--                      the server that main sets up
--   System             the histories of the two programs on one database; System/Kept says what an
--                      invariant needs of their transactions. System/Account is what they
--                      promise of a payment, System/Waiting is about the rows of the outbox,
--                      System/Books about the entries of the ledger,
--                      System/Programs runs requests and rounds of the worker over one database
--                      (System/Requests, System/Rounds), System/Drain rounds of a worker alone
--   Tests              runs at concrete inputs
--
-- State. A table is a list of rows, the newest first, and Db is the record of all tables. An
-- operation on the database is a function Tx A = TxState -> Result A x TxState. TxState holds a list
-- of Booleans that says, call by call, which calls of the driver fail; past its end none does.
-- A failed Commit takes a second Boolean: whether the server had applied it. The modules Outcome of
-- Payment, Refund, Tenants and Worker list the ways in which a transaction ends. Transactions are
-- serial: the row locks that the code takes are not modelled. A world (Queue) adds the jobs published,
-- the HTTP requests sent and the pauses made.
--
-- Parameters. Env holds what the repository calls and does not contain: SHA-256, encoding/json, the
-- text of JSONB, UUIDs and the Unicode case tables beyond ASCII. Net (Webhook) holds HMAC, the HTTP
-- client, the clock and the context. Codec, Bcrypt and Jwt (Http, Auth) are encoding/json, bcrypt
-- and the JWT library; Server has them with what the world supplies for one request. Feed (ServiceBus)
-- is what the receivers of a namespace yield. Calls (Startup) says which calls of the libraries succeed at
-- the start. Draw holds what the database generates: ids and the time.
--
-- Bounds and fuel. int64 sums wrap (Base.Int.add64). A Go int that is a count (attempts, limits) is a
-- natural number, so that a setting below 0 stands as 0, which the code treats alike. Refunds are
-- bounded for payments below 2 ^ 62 cents, where the sum of what is reserved and what is asked
-- cannot wrap. ProcessDelivery runs on fuel, one unit for a round; as many as there are attempts
-- left are enough. BRPopJob of the Service Bus runs on one unit for a round; as many as begin before the
-- deadline, and one, are enough. A worker alone needs as many rounds as the outbox has open rows.
--
-- Not modelled: foreign keys (the code deletes no row), the padding of CHAR(3), the text of logs but that
-- of RequestLogger, metrics, what is traced, other steps of one process between two calls of a request
-- of another (Step has the transactions for that), the recovery from panics, header Content-Type, and the address and time-outs of the HTTP server.
pub mod Base
pub mod Text
pub mod Store
pub mod Ledger
pub mod Audit
pub mod Outbox
pub mod Payment
pub mod Refund
pub mod Queue
pub mod ServiceBus
pub mod Webhook
pub mod Worker
pub mod ApiKeys
pub mod Tenants
pub mod Auth
pub mod Config
pub mod Migrate
pub mod Startup
pub mod Http
pub mod System
pub mod Tests
