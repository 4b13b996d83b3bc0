-- ===== src/Stun.antt =====
-- STUN and TURN messages: coturn/src/client/ns_turn_msg.c.
pub mod Words
pub mod Types
pub mod Header
pub mod Attr
pub mod Address
pub mod Channel
pub mod Framing
pub mod Crc
pub mod Saslprep
pub mod Lifetime
mod CodecTests
mod Tests
