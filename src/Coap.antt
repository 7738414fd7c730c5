-- ===== src/Coap.antt =====
-- messaging/coap: the CoAP message layer.
pub mod Options
pub mod OscoreOption
pub mod Packet
pub mod Parse
pub mod RoundTrip
pub mod Serialize
pub mod Transactions
