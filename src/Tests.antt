-- ===== src/Tests.antt =====
-- Concrete runs of the model, on a small world.
mod Fixtures
mod Rides
mod Background
mod Web
mod Tables
mod Presence
mod Platform
