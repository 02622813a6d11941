-- ===== src/Rpc.antt =====
-- JsonRpc.cpp, JsonRpcServer.cpp and trim.cpp: JSON-RPC over the byte streams of the clients.
pub mod Trim
pub mod Framing
pub mod Split
pub mod Stream
pub mod Node
pub mod Dispatch
pub mod Server
pub mod Sends
pub mod Read
pub mod Links
pub mod Emptied
pub mod Processed
pub mod Requests
pub mod Pending
pub mod Awaits
pub mod Responses
pub mod Answers
pub mod Copies
pub mod Delivered
pub mod Tests
pub mod Examples
