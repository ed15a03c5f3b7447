-- ===== src/Server/Cron.antt =====
-- The periodic work of src/cache.c.
pub mod Clients
pub mod Metrics
pub mod Databases
pub mod Stats
mod Tests
