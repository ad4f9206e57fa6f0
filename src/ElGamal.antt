-- ===== src/ElGamal.antt =====
-- elgamal: a commutative version of ElGamal encryption, kept in the repository for reference.
pub mod Cipher
pub mod Layers
pub mod SysKeys
pub mod Padding
mod Tests
