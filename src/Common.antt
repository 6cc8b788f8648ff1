-- ===== src/Common.antt =====
-- Classes that stand by themselves: versions, authentication and the object pool.
pub mod Version
pub mod Authentication
pub mod Pam
pub mod Factory
pub mod Pool
mod Tests
