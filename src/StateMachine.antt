-- ===== src/StateMachine.antt =====
-- anonbcast/statemachine.go and anonbcast/op.go: the replicated state machine of the protocol.
pub mod Types
pub mod Ops
pub mod Round
pub mod Handlers
pub mod Lists
pub mod Order
pub mod Slots
pub mod Invariant
pub mod Run
pub mod Monotone
pub mod CheckRep
pub mod Legal
pub mod Assertions
pub mod History
pub mod Transitions
pub mod Copy
pub mod Copied
pub mod Checked
pub mod Debug
pub mod Oversized
mod Tests
pub mod Machine
