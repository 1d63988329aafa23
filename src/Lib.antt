-- ===== src/Lib.antt =====
-- Aqualung carries a coding agent's leader process to phones. `snorkel` runs beside the leader and
-- connects its socket to a `topside` server; `topside` accepts that home connection and the phones'
-- WebSockets, and its hub relays JSON-RPC between them. The hub is one task with one state, which
-- takes messages from a channel and sends on the channels of its connections.
--
-- Files and the code they model, by paths from the repository's root:
--   Common      HashMap, HashSet, BTreeMap and the tests that the code uses, as lists
--   Json        serde_json, a parameter of every module: operations with their documented laws
--   Wire        crates/topside/src/wire.rs: messages, JSON-RPC texts (Wire/Rpc), frames (Wire/Frame)
--   Pki         rustls, rustls_pemfile and the files, a parameter of what loads a configuration
--   Auth        crates/topside/src/config.rs: `token_eq`
--   Topside     crates/topside/src, around the hub:
--     Topside/Pem, Topside/Config   config.rs: the PEM files, `load`, `PinnedClientVerifier`
--     Topside/Net/Bearer   net.rs: `bearer_bytes`, the callback, `unauthorized`
--     Topside/Net/Home     net.rs: `home_connection`, byte by byte
--     Topside/Net/Phone    net.rs: `phone_connection`
--     Topside/Server       lib.rs: `Server::bind`; net.rs: `serve`, the accept loops; shutdown.rs
--     Topside/Main         main.rs: the exit status
--     Topside/System       all of this and the hub, as one step relation
--   and its proofs: Topside/Pinning, Topside/Net/Admission, Topside/Net/Reading,
--   Topside/Net/Delivery, Topside/Net/Telling, Topside/Net/Texting, Topside/Status, and below
--   Topside/System: Turns, Counted, Calls, Sound, Reached, Admitted, Updates
--   Hub         crates/topside/src/hub.rs:
--     Hub/Loads      `PendingLoads`
--     Hub/Link       `Link`, `Incoming`, `Replace`, `Armed`, `Home`, and the effects
--     Hub/State      `Hub` and its shared operations
--     Hub/Slots      `on_accepted`, `fail_incoming`, `on_deadline`, `on_home_eof`,
--                    `finish_successor`, `take_candidate`, `put_candidate`
--     Hub/Watching   `watch`, `unwatch`, `on_phone_eof`
--     Hub/FromHome   the handshake of a home connection; Hub/FromHome/Frames `on_home_frame` and
--                    the answers, notifications and requests of the leader
--     Hub/FromPhone  `on_phone_hello`, `on_phone_text` and the handlers below it
--     Hub/Run        `handle`, `shutdown`, `run`
--   and its proofs: Hub/Invariant (the tables), Hub/Serving (the home connections), Hub/Halting
--   (the halt channels), Hub/Loads/Starting, Hub/Loads/Progress, Hub/Loads/Finishing, Hub/Relay,
--   Hub/Asking, Hub/Gate, Hub/Expiry, Hub/Ending, Hub/Callers (which channel is whose), Hub/Updates;
--   Hub/Quiet and Hub/Untouched say what a handler leaves alone.
--   Snorkel     crates/snorkel/src:
--     Snorkel/Link      link.rs: the link and its steps
--     Snorkel/Run       link.rs: `run`, with the dials and the sessions that the steps wait for
--     Snorkel/Shutdown  shutdown.rs
--     Snorkel/Session, Snorkel/Copy   session.rs: the outcome; `copy_half`, `Session::run`
--     Snorkel/Dial      endpoint.rs, and `Session::establish`
--     Snorkel/Pem, Snorkel/Config     config.rs: the PEM files; `Endpoint::parse`, `load`
--     Snorkel/Main      main.rs: the exit status
--   and its proofs: Snorkel/Backoff, Snorkel/Once, Snorkel/Copied, Snorkel/Copying, Snorkel/Reporting,
--   Snorkel/Totals, Snorkel/Ports, Snorkel/Endpoints
--   Tests       the theorems at concrete inputs, with small libraries for its parameters
--
-- A function has the name that it has in the code; a part of one, such as the loop `send_loads` of
-- `after_follower_initialize`, has a name of its own and a comment. State is passed explicitly: a
-- handler takes the hub last and returns it. What the hub sends is the list `sent` of its state, the
-- newest first; channels are numbers. `Drop` is written out where a value is dropped. The counters of
-- ids are 64-bit and wrap, as `+= 1` does in a release build. `Instant::now()` is a number of
-- milliseconds that comes with each event, and the loop `run` is a function of the events in the order
-- in which `select!` takes them, so it needs no fuel. A `HashMap` is iterated in the order of its list.
--
-- The random factor of snorkel's jitter is drawn from the range of the source by a parameter, rand's
-- `random_range`, and multiplied by another, `mul_f64`; what a step of its link meets (the shutdown,
-- a failed dial, a session and its end) is an argument. In Snorkel/Run it is computed from the scene
-- of the step: the changes of the shutdown's channel, the network, and what the two sides of a session
-- give. A step that waits for good on a session returns nothing, and the loop stays where it is.
--
-- A task of a connection is a function of what happens to it: for `home_connection` the bytes that
-- arrive, the end of the stream, a writer or a hub that is gone, and the branch that `select!` takes
-- next. `held` are the bytes that the future of `read_frame` has taken; they are dropped with it when
-- another branch is taken. What a task tells the hub and writes is the list that the function
-- returns. A half of snorkel's `Session::run` is a state and the answers of its reader and writer.
-- These functions are by recursion on the list of events, so they need no fuel either. The two accept
-- loops and `Shutdown::wait` are functions of what they receive; `serve` runs the hub's loop over the
-- messages in the order in which they come, with `Shutdown` among them.
--
-- Topside/System puts the tasks together: its state is the hub, the messages on their way to it, and
-- the task of each connection, and a step is one turn of the hub or of one task, in any order. Each
-- connection has one number for its channels, and what a task can take from the hub is what the hub
-- has sent to that number. A TLS handshake with a home connection is what rustls documents for the
-- methods of its verifier: whether it asks for a certificate, demands one, and accepts the one shown.
--
-- Code that is not in the repository is a parameter: serde_json (Json), serde's derived code for the
-- messages of the leader (Codec in Topside/Net/Home), rustls and the PEM reader (Pki, ServerTls,
-- ClientTls), sockets (Sockets, Network), HTTP headers (Http), the parsers of addresses and names
-- (Names). `str::trim`, `split_once`, `rsplit_once`, `parse::<u16>` and `as_bytes` are written out.
--
-- Not modelled: the threads of tokio and the order in which it schedules tasks, clap's parsing of the
-- command line, the installation of the crypto provider, and `eprintln!`; of topside's shutdown.rs,
-- the task that waits for signals and `Shutdown::manual`, which Snorkel/Shutdown has for snorkel. A write that fails counts as one that has written nothing.
pub mod Common
pub mod Json
pub mod Wire
pub mod Hub
pub mod Auth
pub mod Pki
pub mod Topside
pub mod Snorkel
pub mod Tests
