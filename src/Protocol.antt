-- ===== src/Protocol.antt =====
-- The protocol library of include/protocol: buffers, command parser and memory blocks.
pub mod Buffer
pub mod CmdBuffer
pub mod Parser
pub mod ArgBuffer
pub mod InputBlock
pub mod OutputBlock
mod Tests
