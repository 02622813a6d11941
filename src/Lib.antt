-- ===== src/Lib.antt =====
-- Verification library of faf-ice-adapter, the program that connects the game Supreme Commander:
-- Forged Alliance to remote players over ICE.
--
-- The program stands between three sides. The client drives it by JSON-RPC (IceAdapter.cpp
-- `_connectRpcMethods`). The game is connected by TCP and speaks the GPGNet protocol
-- (GPGNetMessage.cpp, GPGNetServer.cpp). Each remote player has a relay (PeerRelay.cpp), which moves
-- the game's packets over a WebRTC data channel and watches whether the other end is still there
-- (PeerConnectivityChecker.cpp). `IceAdapter` owns the relays and a queue of tasks that wait for the
-- game, and calls the GPGNet server.
--
-- Json: what the program uses of jsoncpp, which is not part of the repository, as a record of
--   functions, and the documented laws of its scalars and of its objects as two more. Json/Sample is a
--   small instance, used only to apply theorems to concrete inputs.
-- GpgNet: GPGNetMessage.cpp and GPGNetServer.cpp. Reader and Message are `toBinary` and `parse`,
--   Handler is `GPGNetConnectionHandler::_onRead`, Server the class `GPGNetServer`. RoundTrip, Sound,
--   Stream, Fragments, Delivery, Skipped, Members, Server/Sends and Server/Refines hold the proofs.
-- Checker: PeerConnectivityChecker.cpp, with the steady clock's time as an argument. Proofs are in
--   Checker/Silence.
-- Relay: PeerRelay.cpp and PeerRelayObservers.cpp. State is the record of the members, Close the
--   connection's life, Connection the signalling messages and observers, Data the packets, Stats the
--   statistics, Events all that can happen to a relay. Identity, Closing and Safety hold the proofs.
--   WebRTC is the record `Webrtc`, and what the relay calls of it, of the game's socket and of its
--   owner is the trace `calls`.
-- Adapter: IceAdapter.cpp. State is the record of the members, Tasks the task queue, Game the game's
--   events, Servers `setIceServers`, Methods the other public methods, Status `status`, Handlers the
--   callbacks of `_connectRpcMethods`, Steps the whole as a step relation. PartialList, TaskOrder,
--   Delivered, Synced, Invariant and Reachable hold the proofs.
--   Service makes the handlers the callbacks of the JSON-RPC server. Options is
--   IceAdapterOptions.cpp.
-- Timer: Timer.cpp, over the record `Thread`, which stands for `rtc::Thread`. Schedule and Calls hold
--   the proofs.
-- Protocol: JsonRpcProtocol.cpp, JsonRpcQTcpServer.cpp and JsonRpcQTcpSocket.cpp of
--   legacy_testclient, the JSON-RPC of the test programs. Reading is `processBuffer`, Sockets the two
--   `sendJson` and the callbacks of new sockets. Trimmed is `QByteArray::trimmed`. Ends and Streams
--   hold the proofs.
-- Testserver: legacy_testclient/Testserver.cpp, the lobby server for manual tests. Logins is the search
--   for a free login, Games `disconnectPlayerFromGame`, Callbacks the callbacks of the constructor,
--   Histories the server over its life, Wire its callbacks behind Protocol. Valid states the invariant;
--   Quiet, Leaving, Left, Putting, Seats, Handover, Coming, Playing, Turns, Saying,
--   Inviting, Joining and Strangers hold the proofs.
-- Testclient: the other end of it under legacy_testclient. GpgNetClient is GPGNetMessage.cpp and
--   GPGNetClient.cpp, Pingtracker is Pingtracker.cpp, and Client is Testclient.cpp without the window:
--   Candidates `onIceMessage`, Callbacks `connectRpcMethods`, Game the adapter's GPGNet messages and the
--   peers' datagrams. The modules below them hold the proofs.
-- Rpc: JsonRpc.cpp, JsonRpcServer.cpp and trim.cpp. Framing is `_parseJsonFromMsgBuffer` and the loop
--   of `_read`, Node the class `JsonRpc` and `sendRequest`, Dispatch `_processJsonMessage` and
--   `_processRequest`, Server the class `JsonRpcServer`, Read `_read` and `_onRead`. The callbacks are
--   the record `Service` and the sending of messages is the record `Link`, which Server fills as
--   `server_link` and Adapter/Service as `adapter_service`. Split, Stream, Links, Emptied,
--   Processed, Requests, Pending, Awaits, Responses, Answers, Sends, Copies and Delivered hold the
--   proofs.
--
-- Numbers: an `int` is an integer of Base/Words, with the conversions to 32 bits written out; sizes
-- are natural numbers. Strings are lists of bytes. The bytes of an `int32_t` are in little-endian
-- order, as on every platform that the build files name. An allocation of an admitted size succeeds.
--
-- `parse` loops on fuel, one round more than the buffer has bytes. A round that goes on takes at
-- least one byte, so the fuel does not run out. The same holds of the loop of `JsonRpc::_read` and of
-- that of `processBuffer`. The search for a login has one round more than there are logins.
--
-- A method that ends by an exception, by `std::exit` or by a call through a null pointer says so in
-- its result, and what it changed before stays changed.
--
-- The ids of requests count from 0 and stay below 2 ^ 31. A callback of JSON-RPC that is asynchronous
-- answers while it runs. A set of sockets or of connections is a sorted list of their addresses.
--
-- Not modelled: logging.cpp and main.cpp, which keep no state that the rest reads; what cxxopts does
-- with the command line, which is a parameter of Adapter/Options; the listening sockets; the window of
-- the test client, its settings and the process of the adapter that it starts; the test programs.
pub mod Base
pub mod Json
pub mod GpgNet
pub mod Checker
pub mod Relay
pub mod Timer
pub mod Rpc
pub mod Adapter
pub mod Protocol
pub mod Testserver
pub mod Testclient
