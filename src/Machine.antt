-- ===== src/Machine.antt =====
-- What the code asks of the operating system and of libraries, and the monad that it runs in.
mod Defs
mod Monad
mod Calls
mod Retry
pub mod Triple
pub mod Frame
pub mod Gives
pub mod Absent
pub mod Retried
pub mod Success
pub mod Lines
unfoldable pub use Defs.*
unfoldable pub use Monad.*
unfoldable pub use Calls.*
unfoldable pub use Retry.*
