-- ===== src/Sys.antt =====
-- sys/util.cpp, sys/logger.cpp and sys/tool.cpp: times, dumps, the log and the start of a daemon.
pub mod Clock
pub mod Ntp
pub mod Hex
pub mod Format
pub mod LocalTime
pub mod Logger
pub mod Daemon
pub mod Thread
pub mod Locks
mod Tests
