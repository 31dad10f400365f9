-- ===== src/Lib.antt =====
-- OpenScumRcon: a native mod that gives a SCUM server an RCON console, and a scanner of PE files.
--
-- A client speaks the Source RCON protocol with the worker thread. That thread reads packets off a
-- socket, checks the password, puts each command in a queue with a promise for its reply, waits, and
-- sends the reply in packets. The game thread drains the queue in each tick and runs the commands:
-- its own diagnostics, the requests for GodMode, or commands of the game's registry. Replies
-- that the game sends while a command runs are collected in a scope on the stack.
--
-- Paths below are from the root of the repository; `native_module/src` is where most files lie.
-- - Base: lists, bytes, Boolean tests and results, on the native numbers.
-- - Protocol (native_module/src/rcon_protocol.hpp and .cpp): `encode_packet`, `encode_response` and
--   `decode_packet_body`. Protocol/Frame, Decode and Chunks are about the layout, the round trip and
--   the packets of a response.
-- - Utf8 and Response (native_module/src/response_buffer.hpp): `utf8_prefix_size` and the class
--   `ResponseScope`, of which `current` with its chain of `previous` is a list. Response/Receive
--   (native_module/src/response_capture.cpp) is the function that gives it the replies; Strings says
--   what stands in memory behind them, and Received what becomes of them.
-- - Trim and Request (native_module/src/dispatch_request.hpp): `parse_dispatch_request`, with the
--   state of its loop as a record and one function for each of its phases.
-- - Authority and Queue (native_module/src/command_authority.hpp and command_queue.hpp): promises are
--   numbers of futures, and a future is an optional text.
-- - Server (native_module/src/rcon_server.cpp): `recv_exact`, `send_all`, `recv_packet` and
--   `handle_connection` over sockets that are a parameter, with the laws of a byte stream in
--   Server/Transport. What the game thread does while a connection waits is a parameter as well.
-- - Listener (native_module/src/rcon_server.cpp and .hpp): `start`, `stop`, `run` and the destructor of
--   RconServer, as steps of the owner's thread and of the listener's; what the calls of Winsock
--   return is a choice of the step. `OwnStep` has the steps that wait for no client.
-- - Mod (native_module/src/dllmain.cpp): `drain_and_dispatch`, over a game that is a parameter.
--   Mod/Order has the two threads as a relation of steps.
-- - Config (native_module/src/dllmain.cpp): `load_config`.
-- - Hooks (native_module/src/dllmain.cpp, godmode_trace.cpp, godmode_dispatch.cpp and
--   response_capture.cpp): `on_unreal_init` with the `initialize` of each part, the detours, the
--   ProcessEvent callback and the destructor, over a process whose code is a parameter.
-- - GodMode (native_module/src/godmode_request.hpp and godmode_dispatch.cpp): `parse`, `find_player`
--   and `dispatch`, over an engine that is a parameter.
-- - Registry (native_module/src/registry_dispatch.cpp): Registry/Engine has what is read of the game, as
--   a record that is a parameter, and the helpers; Players `connected_players`, `connection_ip` and
--   `list_players`; Commands `commands` and `catalogue`; Weather `weather`; Execute `execute` and
--   `dispatch`. Connected, Details, Lines, Callable, Lookup, Running and Effect are about them.
--   An exception is the error of a result. The two latches and the game are the state.
-- - LiveQuery (native_module/src/live_query_format.hpp): `ingame_clock` and `weather_json`, over
--   floating-point numbers that are a parameter.
-- - Admin (native_module/src/admin_dispatch.cpp): `initialize`, `find_admin_context_object` and
--   `dispatch_command`, which offers a command to GodMode and then to the registry. Admin/Console
--   puts it under the console of Mod, and Admin/Latched under the two threads.
-- - Trace (native_module/src/godmode_trace.cpp): the tracing of calls of the native handler, which may
--   throw.
-- - Pe (tools/pe_xref_scanner/main.cpp): `PeImage`, `loadPe`, `findAllAscii`, the scan of `main` and
--   the dumps, with the disassembler Zydis as a parameter.
-- - Tests: the theorems at concrete inputs.
--
-- An int32_t is its bit pattern, a std::string a list of bytes; sums of fixed width are written with
-- their remainder. Loops of the source that are not over a list run on fuel. Receiving and sending
-- have one round for each byte, a conversation one for each byte of its stream and one more, the
-- searches and dumps one for each byte of their window: each round goes on at least one byte, which
-- is proved or, for Zydis and sockets, a law of the parameter.
--
-- A char is signed, as on the platform of the program, which the search in a file depends on.
-- std::sort is a sort by insertion, which is stable; nothing here depends on the order of equal keys.
-- The getters of the game are taken to change nothing.
--
-- Not modelled: PolyHook and the callbacks of UE4SS themselves, the options of sockets, logging, the
-- checks of a profile's reflection (a Boolean), the dumps of AdminDispatch and the other
-- diagnostics that read foreign memory or walk the engine's reflection.
pub mod Admin
pub mod Authority
pub mod Base
pub mod Config
pub mod GodMode
pub mod Hooks
pub mod Listener
pub mod LiveQuery
pub mod Mod
pub mod Pe
pub mod Protocol
pub mod Queue
pub mod Registry
pub mod Request
pub mod Response
pub mod Server
pub mod Trace
pub mod Trim
pub mod Utf8
pub mod Tests
