-- ===== src/Message.antt =====
-- Package message: the wire format, the message object and its pool.
pub mod Flag
pub mod Magic
pub mod Slice
pub mod Env
pub mod Head
pub mod Object
pub mod Read
pub mod Marshal
pub mod Transfer
pub mod RoundTrip
pub mod Reuse
pub mod Pool
