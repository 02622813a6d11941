-- ===== src/GpgNet.antt =====
-- The GPGNet protocol: GPGNetMessage.h, GPGNetMessage.cpp, GPGNetServer.h, GPGNetServer.cpp.
pub mod Members
pub mod Reader
pub mod Message
pub mod RoundTrip
pub mod Stream
pub mod Handler
pub mod Fragments
pub mod Sound
pub mod Delivery
pub mod Skipped
pub mod Server
pub mod Tests
