-- ===== src/Together.antt =====
-- A client of anonbcast/client.go together with the servers of anonbcast/server.go that it asks.
pub mod Kept
pub mod World
pub mod Finished
mod Tests
