-- ===== src/Raft.antt =====
-- Raft as the server of anonbcast/server.go uses it (libraft/raft.go), the mock of mockraft/mockraft.go,
-- and a server together with a Raft.
pub mod Interface
pub mod Node
pub mod Trace
pub mod Promises
pub mod Mock
pub mod Whole
pub mod Quiet
pub mod Answered
mod Tests
