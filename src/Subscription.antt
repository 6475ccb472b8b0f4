-- ===== src/Subscription.antt =====
-- src/QoreNatsSubscription.cpp and .h: the wrapper of a C client subscription, with the last message
-- that it received, on which the JetStream acknowledgements act.
pub mod Client
mod Receive
mod Acks
mod Queries
mod Guards
mod Left
pub mod Memory
pub mod Life
pub mod Waits
pub mod Ends
pub mod LastMsg
mod Tests
unfoldable pub use Client.*
unfoldable pub use Receive.*
unfoldable pub use Acks.*
unfoldable pub use Queries.*
