-- ===== src/Connection.antt =====
-- src/QoreNatsConnection.cpp: the calls of a connection on the C client, and the context of its
-- callbacks. The replies to requests are in ReplyMux.
mod Client
mod Calls
pub mod Flush
pub mod Forked
pub mod Headers
pub mod Callbacks
pub mod Setup
pub mod Options
pub mod Construct
pub mod Permitted
pub mod Info
pub mod Registered
mod Tests
unfoldable pub use Client.*
unfoldable pub use Calls.*
