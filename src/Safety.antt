-- ===== src/Safety.antt =====
-- src/safety.py: what the client holds, what it may come to hold, what it earned, and the check
-- of an order before it is sent.
pub mod Position
pub mod Exposure
pub mod Pnl
pub mod Risk
pub mod Ledger
pub mod Scenarios
pub mod Cash
pub mod Limits
pub mod Rate
