-- ===== src/Strategy.antt =====
-- src/strategy.py: the market maker on top of the client and the books.
pub mod Floats
pub mod Spoofs
pub mod State
pub mod Prices
pub mod Quotes
pub mod Spoofing
pub mod Steps
pub mod Flat
pub mod Stopping
pub mod Turns
pub mod Pressure
pub mod Guards
