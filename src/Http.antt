-- ===== src/Http.antt =====
-- internal/interfaces/http: the requests that the program serves.
pub mod Errors
pub mod Messages
pub mod Server
pub mod Auth
pub mod Reads
pub mod Actions
pub mod Routes
pub mod Logging
pub mod Serve
pub mod Effects
pub mod Paths
pub mod Answers
