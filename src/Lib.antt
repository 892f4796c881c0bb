-- ===== src/Lib.antt =====
-- Verification of tls-tunnel, a reverse tunnel: a client keeps one multiplexed connection to a
-- server, the server publishes the client's services on ports of its own and hands each visitor's
-- connection through the tunnel; visitors and forwarders of a client use the tunnel the other way.
--
-- Parts and files. A name below is the source's name unless it says otherwise.
-- - Client: connect_local of src/client/connection.rs (Local) and the loop of handle_stream in
--   src/client/stream.rs (Stream), on the pools of Pool; a Round is what the outside answers in one turn
--   of the loop. Opening is the search of the proxy of a stream and of its pool; Reaching joins it to the server's side.
-- - ClientSession: the client's end of a session. Channel is ClientControlChannel of
--   src/client/control_channel.rs, whose waiting tasks are the entries of its table; World is ClientWorld of
--   src/client/mod.rs; Loop is run_client_event_loop, one event for each branch of its select!. JSON, the
--   environment and the outcomes of the warm-ups are parameters. Tokens counts the answers that may still
--   come, Phases has what holds in each state.
-- - Config: the records of src/config/mod.rs (Types) and ConfigValidator of src/config/validator.rs
--   (Validator), with an independent description of a valid configuration (Validity). A check is an
--   Outcome, a value or the first error; warnings are left out.
-- - Control: the server's end of the control channel, src/server/control_channel.rs with ControlMethod of
--   src/control_protocol.rs. Framing has the frames, Channel handle_request and read_message as the event
--   loop calls it: a call ends, or select! drops it with the bytes it has taken. JSON is a parameter.
-- - Forwarder: src/client/forwarder.rs, the proxy on the client's side. Targets is FailedTargetManager,
--   Cache the ConnectionPool of that file with ReusableConnection, Talk what is read from and written to a
--   local connection, Socks and Http the requests (Text has the functions of str that they use), Copy
--   copy_with_stats, Direct is_unsafe_direct_target, Retry retry_with_backoff, Listener the accept loop,
--   and Handling the whole of handle_forwarder_connection, on the router of Routing, the tunnel's messages
--   of Visitor and the tracker of src/client/stats.rs (Client.Tracker). The letters' case, the url library,
--   the order in which a HashMap is walked and what the sockets answer are parameters; a connection is
--   handled with the shared state as it alone changes it.
-- - Io: src/io_util.rs. The writer is the list of the outcomes of its calls, so that a short write, an
--   interruption and an error can stand anywhere (Vectored); VecBuffer (Buffer).
-- - Pool: src/connection_pool.rs. AddressPool (Address) and ConnectionPool (Manager). A socket is a
--   number; the time, the outcome of a connect and that of try_read are arguments; the lock around
--   the pools makes a call atomic, so a history of calls is a list of requests.
-- - Stats: ProxyStatsTracker and StatsManager of src/stats.rs. Atomic counters wrap at 2 ^ 64. A
--   tracker is a handle into a store, as its clones share their counters.
-- - Routing: GeoIpRouter of src/client/geoip.rs (Domain, Router). The database, the parsing of networks
--   and addresses and the name service are parameters; Decision has the rules as an ordered list.
--   domain_match has the panic of domain_matches; the loops over patterns are modelled for patterns on
--   which it does not panic.
-- - Server: src/server/mod.rs and src/server/registry.rs. World is the state, with the registry and
--   the statistics that all sessions share; Submission is handle_proxy_config_submission with
--   start_proxy_listeners_for_world; Session is run_server_event_loop, one event for each branch of
--   its select!. A session's channel stream_tx is a number, its identity. A write to the control
--   stream succeeds or fails by a function of its number. Interference is what other sessions do to
--   the registry between two locks of a submission, and Interleaving what they do between events.
--   Binding is the bind of a listener with its retries and Connection the handling of a connection to it,
--   both of src/server/connection.rs.
-- - Transport: Http2Stream and WssStream of src/transport/http2.rs and src/transport/wss.rs (Http2, Wss),
--   whose libraries are the lists of what their polls return; ByteStream is what users see of a stream,
--   and Streams fills it for both. Tunnel is connect and accept over HTTP/2, each step an outcome that is
--   given. Limited is LimitedReader of src/limited_reader.rs, on an inner reader that is a parameter: the
--   buffer it passes to that reader is another one than its caller's.
-- - Visitor: the request of a visitor on a new stream. Wire has the reads and writes of bytes and the
--   test of String::from_utf8; Client is handle_visitor_connection of src/client/visitor.rs and
--   read_error_message of src/client/config.rs; Handler is handle_visitor_stream with
--   handle_forward_request of src/server/visitor.rs up to the copying of data, Address its
--   is_local_address. The name service, the dialling of a target and the answer of the session that
--   owns a proxy are parameters.
--
-- Numbers are natural numbers, with the width written out where the code can reach it. Strings are
-- bytes; a string that the program only shows is left out. Loops over collections are structural
-- recursion. The printing of a number has fuel, one more than the number, which is more than its
-- digits; the retries, of an attempt and of a bind, have one more than the retries allowed, and each uses one.
--
-- Not modelled: TLS, HTTP/2, WebSocket and yamux themselves (libraries), sockets and timers, TOML and JSON, the command line, the statistics pages, the terminal monitor and logs.
pub mod Prelude
pub mod Client
pub mod ClientSession
pub mod Config
pub mod Control
pub mod Forwarder
pub mod Io
pub mod Pool
pub mod Routing
pub mod Server
pub mod Stats
pub mod Transport
pub mod Visitor
