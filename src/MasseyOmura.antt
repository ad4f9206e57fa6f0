-- ===== src/MasseyOmura.antt =====
-- The package masseyomura: padding of messages and commutative encryption modulo a prime.
pub mod BigInt
pub mod Padding
pub mod Powers
pub mod Cipher
pub mod Keys
pub mod Inverse
pub mod Messages
pub mod Generation
pub mod Verified
pub mod SysKeys
pub mod Tests
