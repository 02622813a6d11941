-- ===== src/Testclient.antt =====
-- The client for manual tests, legacy_testclient.
pub mod Pingtracker
pub mod GpgNetClient
pub mod Client
pub mod Tests
