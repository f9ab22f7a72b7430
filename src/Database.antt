-- ===== src/Database.antt =====
-- The tables that durable delivery keeps in PostgreSQL, and one service call's surroundings.
-- A call is one transaction: it takes the tables and returns the committed ones, or an exception
-- that commits nothing. New rows stand first; no query relies on that order.
mod Tables
mod Laws
pub mod Keys
mod Insertion
pub mod App
unfoldable pub use Tables.{insert_job, insert_attempt, insert_event}
pub use Tables.*
pub use Laws.*
pub use Insertion.*
