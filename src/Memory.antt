-- ===== src/Memory.antt =====
-- internal/infrastructure/memory/repositories.go, with the names of the ports that adapters.go
-- gives the methods. Each method holds the store's lock from its first line to its last, so it is
-- one step. The order in which a `range` visits a map is the order of the table's entries.
mod Common
mod Accounts
mod Sessions
mod Demands
mod Offers
mod Bookings
unfoldable pub use Common.*
unfoldable pub use Accounts.*
unfoldable pub use Sessions.*
unfoldable pub use Demands.*
unfoldable pub use Offers.*
unfoldable pub use Bookings.*
