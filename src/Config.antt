-- ===== src/Config.antt =====
-- The configuration of src/commandLine.cpp, src/configFile.cpp and src/appConfig.cpp, built for a
-- POSIX system.
pub mod CommandLine
pub mod Application
pub mod File
mod Tests
