-- ===== src/Store.antt =====
-- The Postgres tables (payflow-app/internal/migrate/sql) and transactions over them.
-- A row type is the Go struct of the package that owns the table, where there is one.
mod Rows
mod Transactions
pub mod Faults
pub mod Atomic
pub mod Keeps
pub use Rows.*
unfoldable pub use Transactions.*
