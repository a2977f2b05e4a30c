-- ===== src/Protocol.antt =====
-- src/order_entry_protocol.py: the messages between the client and the exchange.
pub mod Enums
pub mod Layouts
pub mod Requests
pub mod Responses
pub mod Codec
pub mod RoundTrip
