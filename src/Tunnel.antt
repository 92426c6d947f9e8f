-- ===== src/Tunnel.antt =====
-- The tunnel of src/main/tunnel.
pub mod Distributor
pub mod Fec
pub mod Proto
pub mod Client
pub mod Processor
pub mod Listener
pub mod Parse
pub mod RsFec
pub mod Forwarder
mod Tests
