-- ===== src/Lib.antt =====
-- tttt, a terminal multiplexer for people and agents: sessions over pseudo terminals, viewers
-- that attach to them, a scheduler for reminders and cron jobs, logs that can be replayed, and
-- profiles for a sandbox.
--
-- The program holds a `SessionManager` of `PtySession`s. A session writes the keys that it is sent
-- to a backend, and pumps the backend's output into a screen buffer and, if it is asked to, into a
-- capture file. The input parser turns what the person types into commands, mouse events and
-- bytes for the session. Viewers exchange frames of JSON with the program. The scheduler is asked
-- in every round of the event loop what has become due. A replay feeds the log of a session to a
-- terminal emulator again.
--
-- Base: what the parts share: tests on numbers, lists, text as the list of its bytes, decimal
-- numbers, white space, association lists and results.
--
-- Scheduler: crates/tttt-scheduler/src/lib.rs, with `parse_interval` in Scheduler/Interval. The
-- time is a number of nanoseconds; a `BTreeMap` is a list in the order of its keys. Order, Crons
-- and Counts have the lemmas on the reminders' buckets, on the loop over the cron jobs and on
-- the number of reminders of an identifier; Timing, Reach and Formats are about `tick`, about any
-- sequence of operations and about the interval formats.
--
-- Pty: crates/tttt-pty/src: Keys (keys.rs), Backend (the trait and `MockPty` of backend.rs),
-- Screen (screen.rs), Session (session.rs) and Manager (manager.rs); Restored (restored.rs), a
-- backend over system calls that are a parameter, and Any (any_backend.rs), one of two. A method
-- that may fail returns its result beside the changed state. The terminal emulator (`Vt100`) and the backend
-- (`PtyBackend`) are records that sections take as parameters. What a method reads of its
-- surroundings, the time and the error of the capture file, is its argument (`Moment`).
--
-- Tui: crates/tttt-tui/src: Input (input.rs, with the mouse reports in Input/Mouse), Selection
-- (selection.rs) and Protocol (protocol.rs). The clock of the Ctrl+C tracker and JSON are
-- parameters.
--
-- Log: crates/tttt-log/src: the event of event.rs and its base64 in Base64, Multi (multi.rs) and
-- Replay (replay.rs).
--
-- Sandbox: crates/tttt-sandbox/src: capability.rs, and profile.rs in Sandbox/Profile. The file
-- system is a parameter.
--
-- Mcp: the watchers of crates/tttt-mcp/src/notification.rs in Mcp/Notification, with what a
-- repeated check does in Mcp/Notification/Once. Regular expressions are a parameter.
--
-- Mcp/Protocol and Mcp/Server are protocol.rs and server.rs of the same crate: the requests and
-- responses of JSON-RPC, and the loop that answers the lines of an input. Mcp/Proxy is proxy.rs: the
-- frames on a socket and the loop that joins it to the standard streams. Mcp/Tools has handlers of
-- handler.rs: WaitFor, which polls a session for a pattern, Schedule, which works the scheduler, and
-- Scratchpad, with the composite of handlers. JSON, sockets and the clock are parameters.
--
-- PendingInput: `chunk_len` of src/pending_input.rs, and in PendingInput/Queue the queues that are
-- drained into a session. InjectedEnter: src/injected_enter.rs, the Enter behind an injected text,
-- with the matching of the screen in InjectedEnter/Screen. A drained message puts an entry into the
-- queue of Enters, which the next rounds of the event loop take up.
--
-- ReplayTui: src/replay_tui.rs: the list of recorded sessions with its separators, whose rows Rows is
-- about and whose keys Navigate, and in ReplayTui/View the keys and the playback of one recording,
-- which View/Keys compares with the cursor over the events of View/Cursor.
--
-- Web: src/web/auth.rs in Web/Auth, with who is let in in Granted and the apr1 hash in Apr1. The
-- decoders and the hash functions are parameters.
--
-- The modules called Samples apply the theorems, and run the definitions, on small inputs.
--
-- Fuel: `key_loop` has the length of the text, `split_chunks` the number of bytes, each round
-- taking a byte at least; `step_until` has the number of events, each round passing one;
-- `step_on` has the number of bytes, each round passing one; `read_frames` has the number of bytes,
-- a frame having four at least; `write_from` has the number of bytes, each write taking one;
-- `odd_mixture` and `even_mixture` have the length of the password, which each round makes smaller;
-- `skip_blank` has the rows up to the end of a frame, and `skip_down` all the rows of the list.
--
-- Numbers of 16, 32 and 64 bits are kept below their bounds by the parsers, and products and casts
-- that may leave them are cut as a release build does it; counters of identifiers are not bounded.
-- `add_cron` is `none` where it panics, because the clock cannot hold the time of the first run;
-- that the clock can hold the later ones, and a day from now, is assumed. A write to a capture file
-- may fail half-way, and each read, write and flush of the server's loop may fail.
--
-- Not modelled: the pseudo terminals that the program itself opens (`RealPty`), drawing, SQL and
-- files, HTTP and web sockets, the control socket, the other handlers
-- of tools and the socket's server of crates/tttt-mcp, the event loop of src/app.rs, and the
-- emulator crates/vt100, a copy of another project.
pub mod Base
pub mod Scheduler
pub mod Pty
pub mod Tui
pub mod Log
pub mod Sandbox
pub mod InjectedEnter
pub mod Mcp
pub mod PendingInput
pub mod ReplayTui
pub mod Web
