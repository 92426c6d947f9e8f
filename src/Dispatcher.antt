-- ===== src/Dispatcher.antt =====
-- The event loop's library, src/main/dispatcher.
pub mod Address
pub mod Counters
pub mod Pool
pub mod Worker
pub mod Udp
mod Tests
