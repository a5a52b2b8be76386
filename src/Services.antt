-- ===== src/Services.antt =====
-- internal/application/service: one module for each service.
pub mod Inputs
pub mod Offers
pub mod Bookings
pub mod Sessions
pub mod Demands
pub mod Reviews
pub mod Accounts
