-- ===== src/Domain.antt =====
-- internal/domain: the entities, their states, the errors, and the policies over them.
pub mod States
pub mod Models
pub mod Errors
pub mod Policies
pub mod Machines
