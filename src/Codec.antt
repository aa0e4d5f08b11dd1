-- ===== src/Codec.antt =====
-- server/gtg_server/modem/sms_codec.py
pub mod Alphabet
pub mod Septets
pub mod Recipient
pub mod Address
pub mod Utf16
pub mod Split
pub mod Submit
pub mod Deliver
mod Tests
