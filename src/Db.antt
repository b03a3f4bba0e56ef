-- ===== src/Db.antt =====
-- The PostgreSQL database as a state, and the transactions that the services run on it.
mod Tables
mod Monad
mod Steps
mod Runs
mod Frame
pub mod Pool
unfoldable pub use Tables.*
unfoldable pub use Monad.*
pub use Frame.*
pub use Runs.*
pub use Steps.*
