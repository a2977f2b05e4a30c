-- ===== src/Tests.antt =====
-- Runs of the definitions on small inputs, and the properties applied to them.
pub mod Books
pub mod Feeds
pub mod Routes
pub mod Wires
pub mod Clients
pub mod Orders
pub mod Sessions
pub mod Mids
pub mod Strategies
pub mod Handlers
