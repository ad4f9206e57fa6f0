-- ===== src/Client.antt =====
-- anonbcast/client.go: the steps of the protocol that a client takes.
pub mod Steps
pub mod Phases
pub mod KeyLists
pub mod Turns
pub mod EncryptPhase
pub mod Rounds
pub mod LastUpdate
pub mod Results
pub mod Updates
pub mod Aborter
pub mod Peers
pub mod Commands
pub mod Polling
pub mod Membership
pub mod Member
pub mod Joining
pub mod Leaving
pub mod Absent
pub mod Timeouts
pub mod Once
pub mod Work
pub mod Accepted
pub mod Completion
pub mod Ending
pub mod Verdicts
pub mod Success
mod ResultTests
mod EndingTests
mod TimeoutTests
mod PollingTests
mod MemberTests
mod Tests
