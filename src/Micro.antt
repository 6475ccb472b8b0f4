-- ===== src/Micro.antt =====
-- src/QoreNatsMicroService.cpp and .h, src/QoreNatsMicroGroup.cpp: the endpoints of a microservice and
-- the contexts of their request handlers.
pub mod Construct
pub mod Endpoint
pub mod Handlers
pub mod Readings
pub mod Report
mod Tests
