-- ===== src/Queue.antt =====
-- anonbcast/eliminationqueue.go: the client's queue of operations to submit.
pub mod Compare
pub mod Elimination
pub mod Order
pub mod Usage
pub mod Newest
pub mod Submissions
pub mod Finished
mod Tests
