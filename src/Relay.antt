-- ===== src/Relay.antt =====
-- PeerRelay.h and PeerRelay.cpp: the connection to one remote player.
pub mod State
pub mod Close
pub mod Connection
pub mod Data
pub mod Stats
pub mod Identity
pub mod Events
pub mod Closing
pub mod Safety
pub mod Tests
