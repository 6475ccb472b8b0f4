-- ===== src/KeyValue.antt =====
-- src/QoreNatsKVStore.cpp, src/QoreNatsKVWatcher.cpp and nats_kv_entry_to_hash of
-- src/NatsHelper.cpp: a JetStream key-value bucket and a watch on it.
mod Entry
pub mod Client
mod Store
mod Watcher
pub mod Memory
pub mod Watching
pub mod Revisions
mod Tests
unfoldable pub use Entry.*
unfoldable pub use Client.*
unfoldable pub use Store.*
unfoldable pub use Watcher.*
