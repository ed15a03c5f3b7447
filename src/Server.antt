-- ===== src/Server.antt =====
-- The server core of src/cache.h and src/cache.c.
pub mod CmdFlag
pub mod Client
pub mod Keys
pub mod Command
pub mod Propagate
pub mod Process
pub mod Limits
pub mod Cron
mod Tests
