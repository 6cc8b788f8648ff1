-- ===== src/Network.antt =====
-- The network layer: what a connection handler is, and what drives it.
pub mod Handler
pub mod ConnectionBase
pub mod Server
mod Tests
