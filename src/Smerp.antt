-- ===== src/Smerp.antt =====
-- The handlers of the server's connections: `smerpConnection` of src/smerpHandler.cpp.
pub mod Handler
mod Tests
