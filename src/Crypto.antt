-- ===== src/Crypto.antt =====
-- anonbcast/crypto.go: messages, keys and the interface of a commutative cipher.
pub mod Bytes
pub mod Interface
pub mod Layers
