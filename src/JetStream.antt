-- ===== src/JetStream.antt =====
-- src/QoreNatsJetStream.cpp: the JetStream context.
pub mod Parts
pub mod Stream
pub mod Consumer
pub mod Client
pub mod Streams
pub mod Publish
pub mod Open
pub mod Account
pub mod Acks
pub mod Memory
pub mod Sessions
pub mod RoundTrip
pub mod ConsumerTrip
mod Tests
