-- ===== src/Lib.antt =====
-- rust_netx: remote calls over TCP in both directions, with sessions that outlive a connection.
--
-- The program's parts. A server keeps a table of sessions (AsyncTokenManager), each a token
-- (AsyncToken) that has a controller, the calls it waits for and, while connected, a peer. A
-- connection starts with a handshake, in which the client sends a service name, a key and the id
-- of its last session, and then carries frames: a length in four bytes, and a command with its
-- data. Either end calls the controller of the other, and gets a RetResult back under the serial
-- of its call. A call that gets no answer in time is ended by a periodic check, and a session with
-- no connection is removed by another.
--
-- Files, with paths from the root of the repository:
--   Prelude      shared names, Boolean tests, lists over the native numbers, dictionaries, and the
--                queues of deadlines that async_token.rs, async_token_manager.rs and
--                request_manager.rs use alike
--   Wire         the interface to data_rw, tokio and bytes (the record Wire), the errors
--                (netx_server/src/error.rs, netx_client/src/error.rs), frames and their reads
--                (netx_server/src/owned_read_half_ex.rs); Wire/LittleEndian is a concrete Wire
--   RetResult    netx_server/src/server/result.rs and netx_client/src/client/result.rs
--   Answers      failing calls and answering them once, for both ends
--   Token        netx_server/src/server/async_token.rs; Token/Macros has the arms of call_peer!, and
--                Token/Pending is a session as a run of calls, answers, errors, checks, connections
--                and delays
--   Manager      netx_server/src/server/async_token_manager.rs
--   Server       netx_server/src/server/impl_server.rs: get_peer_token, data_reading, and the
--                closure of new as input_event; Server/Jobs has the tasks of calls, Server/Leaks
--                sessions that no check removes, and Server/Sessions a server as a run of
--                handshakes, connections, their ends and rounds of checks
--   Client       netx_client/src/client/impl_client.rs with request_manager.rs: Client/Calls has
--                call and the deadlines, Client/Stream read_buffer, Client/Jobs the tasks that it
--                starts, Client/Connect connect_network and input_buffer, Client/Request the buffers
--                of the call macros, Client/Macros the arms of call!, and Client/Pending is a client
--                as a run of its calls
--   Builder      netx_builder/src/lib.rs and global_info.rs: what the macros read of a trait, and in
--                Builder/Generated the controller and the methods of a caller that they generate;
--                Builder/Generated/Expansion has build_client and build_server
--   Link         the two ends together: the handshake, calls in both directions, in Link/Early a
--                call during the handshake, in Link/Restart a client process that takes up the session
--                of one before it, in Link/Remote whole remote calls between generated methods in both
--                directions, and in Link/System a client and a server as interleaved steps: callers
--                that draw serials, register, set their deadlines and send, or are dropped between
--                these, the two loops, tasks that end in any order, time-outs, and connections that
--                are lost
--   Sample       the controllers of netx_server/examples/test_server and
--                netx_client/examples/test_client, which call one another
--   Chat         examples/msg/msgserver/src/user_manager.rs and controller.rs: the table of users
--                and the methods that use it
--
-- An operation is a function from the state it changes to the new state, with what it sends: bytes
-- to the peer, values into the oneshot channels of callers, tasks it starts. A Result has a third
-- case, panic, for the end of the task that runs the code. The actor queues (aqueue) run one
-- operation on a state at a time, so that a history is a list of operations. A function that awaits
-- several of them is modelled as if no other task came between, but for Link/System and
-- Chat/Logins, whose steps are the single operations. Channels, peers and watch channels are
-- numbers; `rx` says whose receiver still waits. Time is a number of milliseconds that the
-- operations take as an argument. Signed numbers are their bit patterns, and a time that has passed
-- is taken modulo 2^32 as the code's cast does.
--
-- Bounds and fuel. The two reading loops run on fuel, the length of the stream and one: a frame
-- takes four bytes at least. `checks` says whether the build has overflow checks, which decides
-- what `len - 4` does below 0. The outcome of a send to the peer is one value for a connection.
--
-- Not modelled: TLS and the streams under it, the accept-any-certificate verifier, the listener
-- and its start, logging and the drops that only log, the sleeps, the examples but the chat
-- server and the two test controllers, the parsing of Rust by syn (a trait is the part of its
-- syntax tree that the macros look at), and the quoted code around the generated methods.
pub mod Prelude
pub mod Wire
pub mod RetResult
pub mod Answers
pub mod Token
pub mod Manager
pub mod Server
pub mod Client
pub mod Builder
pub mod Link
pub mod Sample
pub mod Chat
