-- ===== src/Programs.antt =====
-- The programs: src/common/config.cpp, src/common/logging.cpp and the files with a main.
pub mod Config
pub mod Logging
pub mod Servers
pub mod Client
