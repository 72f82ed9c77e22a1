-- ===== src/Lib.antt =====
-- pmd, a daemon that keeps a cluster's membership: the protocol between the daemons, the membership
-- over a CRDT document, the failure detector, the peer sessions, the main loop, the control socket,
-- the command line, the discovery plugins, the files of a start, and the configuration.
--
-- The parts. A daemon has one state, `DaemonState`, behind a mutex. Its tasks take the lock in turns:
-- the main loop with its timers, one session per peer, the control socket, the discovery
-- forwarder. Each function here is what one task does under one lock, or a composition of such
-- functions; what other tasks do in between is an argument, a function on the state, so that the
-- theorems hold for every interleaving that the argument allows. Randomness, the clocks, the
-- success of a write and what arrives are arguments too.
--
--   Platform: interfaces for what is not implemented in the repository: socket addresses (`Net`), JSON
--     values (`Json`), the document of the crate concordat (`Crdt`), HMAC-SHA256 (`Crypto`), 64-bit
--     floats (`Real`), paths (`Os`). Each is a record of operations and laws.
--   Protocol: crates/pmd/src/protocol.rs. `Message`, `ControlRequest` and `ControlResponse` are the
--     enums of the same names. Protocol.Cookie has the HMAC functions, Protocol.Frame `write_frame`
--     and `read_frame` over lists of bytes, and the reader task of peer.rs.
--   Membership: crates/pmd/src/daemon/membership.rs. `Membership` is the struct, each method a function
--     of the same name; an assignment to the document gives the new record. Membership.Replication is the
--     interface for what deltas since a version vector hold.
--   FailureDetector: crates/pmd/src/daemon/failure_detector.rs, over the floats of `Real`.
--   Daemon: crates/pmd/src/daemon/mod.rs. `main_step` is one round of the `select!`, `main_loop` the
--     loop with the shutdown behind it. Daemon.Peer is peer.rs: `run_inbound` and `run_outbound` are
--     the two kinds of session, `message_loop` the loop that they share, `cleanup` its end.
--     Daemon.Peer.Handshake has what they make of the first message.
--     Daemon.Peer.Dialogue puts the two ends of a connection together: each session runs on what the
--     other has written, in rounds. Daemon.Peer.Dialogue.Crossing has two connections at once.
--     Daemon.Control is `dispatch_request` of control.rs, and Daemon.Control.Socket the rest of that
--     file, over lines of text, with the channel of a subscription in Daemon.Control.Socket.Channel:
--     `handle_control_client` is the daemon's end of a connection, `send_control_request` both ends.
--     Daemon.Discovered is about the addresses that the plugins report, and Daemon.Discovered.Connect
--     goes from a beacon to the connecting task. Daemon.Server is server.rs, Daemon.Metrics metrics.rs,
--     and Daemon.Startup the cookie of mod.rs and the TLS identity of tls.rs, with Daemon.Startup.Run
--     for `run` up to its main loop. Daemon.Tls is the rest of tls.rs over an interface for rustls.
--     Daemon.System is the step relation in which the tasks take the lock in any order.
--   Discovery: crates/pmd-discovery/src/lib.rs. Discovery.Broadcast is
--     crates/pmd-broadcast/src/plugin.rs, Discovery.Azure crates/pmd-azure/src/plugin.rs, and
--     Discovery.Plugins starts them, as crates/pmd/src/daemon/mod.rs does. What they report is
--     described by `firsts` of Discovery.News.
--   Cli: Cli.Commands has the commands of crates/pmd/src/cli.rs and `run_cli_command` of
--     crates/pmd/src/main.rs, Cli.Print `print_response`, Cli.Start the branch of `start`,
--     Cli.Subscriber that of `subscribe`, and Cli.Epoch the date of `format_epoch`, beside the step by
--     step calendar of Cli.Calendar.
--   Config: crates/pmd/src/config.rs, and the metrics port of crates/pmd/src/main.rs.
--   BroadcastDiscovery: examples/broadcast_discovery.rs, the program that prints its neighbours.
--   Prelude: lists, maps and tests that the parts share. Examples: a small platform that satisfies
--     all the laws, one whose document is a log of writes of which the last wins, and the theorems at
--     concrete inputs.
--
-- Bounds and fuel. Lengths are unsigned 32-bit numbers, written out in `write_frame`; ports are reduced
-- modulo 2^16 where the source casts. The reader task runs on a number of rounds; one more than the
-- stream has bytes is enough. `pmd subscribe` reads as many lines as its text has characters, and one
-- more, which is enough. The message loop, the main loop, the accept loops and the plugins go over the
-- list of events that come, and say when they have not ended by then.
--
-- Not modelled: sockets, processes and signals, and the fork of the `start` command, which are calls
-- of libraries; reads, writes and accepts are arguments of the functions above.
-- Of serde there is an interface: one line for each value, that is read back as the value if it has
-- one text only. Nothing is said of the size of phi: the precision of `exp` and `log10` is not
-- specified. What a TLS handshake does with the two configurations is left to rustls. In
-- Daemon.Peer.Dialogue each loop begins with the first tick of its two intervals, in that order and
-- before the messages; no later tick falls into the exchange, and all writes succeed.
pub mod Prelude
pub mod Platform
pub mod Protocol
pub mod FailureDetector
pub mod Membership
pub mod Daemon
pub mod Config
pub mod Discovery
pub mod BroadcastDiscovery
pub mod Cli
pub mod Examples
