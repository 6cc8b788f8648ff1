-- ===== src/Logging.antt =====
-- The logging of src/logLevel.cpp, src/logSyslogFacility.cpp and src/logBackend.cpp.
pub mod Level
pub mod Facility
pub mod Names
pub mod Backend
mod Tests
