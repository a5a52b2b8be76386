-- ===== src/Foundation.antt =====
-- internal/foundation: the id generator, and the configuration of the log.
pub mod Ids
pub mod Logging
