-- ===== src/Adapter.antt =====
-- IceAdapter.h and IceAdapter.cpp: the adapter between the client, the game and the relays.
pub mod Options
pub mod State
pub mod Tasks
pub mod Game
pub mod Servers
pub mod PartialList
pub mod Methods
pub mod Status
pub mod Handlers
pub mod TaskOrder
pub mod Delivered
pub mod Synced
pub mod Invariant
pub mod Reachable
pub mod Steps
pub mod Service
pub mod Tests
