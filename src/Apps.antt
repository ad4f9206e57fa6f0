-- ===== src/Apps.antt =====
-- The programs of localconfessions/confessions.go and confessions/confessions.go.
pub mod Orderer
pub mod Placed
pub mod Ordered
pub mod Typed
pub mod Confessions
pub mod Printed
mod Tests
