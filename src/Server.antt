-- ===== src/Server.antt =====
-- anonbcast/server.go and anonbcast/respchannels.go: the server that applies the committed operations.
pub mod RespChannels
pub mod Core
pub mod System
pub mod Others
pub mod Settled
pub mod Kept
pub mod Answers
pub mod Waits
pub mod Sends
pub mod Owed
pub mod Debts
pub mod Balance
pub mod Balanced
pub mod Chains
pub mod Updates
mod Tests
