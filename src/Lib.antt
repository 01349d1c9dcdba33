-- ===== src/Lib.antt =====
-- koc_core: client, scheduler and proxy for a game's WebSocket protocol.
--
-- A client packs a message, a map of JSON values, into BON, the game's binary format
-- (src/bon.rs), encrypts it (src/crypto.rs) and sends it; what arrives is detected, decrypted and
-- parsed under limits (src/protocol.rs). A scheduler (src/scheduler.rs) runs the daily tasks of
-- many roles by the times of its configuration (src/config.rs), keeps their state (src/state.rs),
-- and gives up a task by the code that the server answers with (src/error_codes.rs). Requests
-- and responses are matched by number (src/websocket.rs). A relay between a client and the server
-- (src/proxy.rs) copies the frames into a bounded queue, from which an analyzer (src/koc_proxy.rs)
-- records, decodes and catalogues them (src/proxy_capture.rs).
--
-- The files, and the code that each models under the code's own names:
--   Utf8              String::from_utf8_lossy, which BON decodes texts by
--   Json              serde_json's Value: the numbers are a type with an interface (SerdeJson, with
--                     its documented laws in IsSerdeJson), a map is its entries in the order of keys
--   Bon/*             src/bon.rs: Reader and Writer are DataReader and DataWriter, Encoder and
--                     Decoder the types of these names, Base64 the module base64; Wire describes
--                     the format on its own, and RoundTrip joins the two sides; Packet is
--                     encode_game_packet
--   Crypto/*          src/crypto.rs: Mask hides and extracts the mask, Xor is XorCrypto, Lz4 is
--                     Lz4Crypto, Auto is try_auto_decrypt and get_encryptor
--   Protocol/*        src/protocol.rs: Base64 is base64_decode, Message is ProtoMsg with
--                     parse_message and create_message
--   ErrorCodes/*      src/error_codes.rs, its table in Table
--   Config/*          src/config.rs: Times reads and writes times and weekdays, Windows is
--                     normalize_maintenance_windows, Paths is normalize_path_for_id,
--                     Formations is resolve_formation
--   State/*           src/state.rs: the state of the roles, its resets and its synchronisation;
--                     Migration is normalize_role_keys, Periodic the checks on times
--   Scheduler/*       src/scheduler.rs: Policy is TimeWindowPolicy, Planner is PendingPlanner
--   WebSocket/*       src/websocket.rs: how WebSocketClient numbers its requests, Reply what a
--                     caller is sent for a message, and Answers which caller that is
--   Hortor/*          src/hortor_crypto.rs: encode_payload and its table
--   Capture/*         src/proxy_capture.rs: Record makes records of frames, Lines is
--                     read_bounded_line, Records is read_records, Inspector decodes records and
--                     matches responses with requests, Wildcard and Redact are wildcard_match and
--                     redact_value, Shape is value_shape, Catalog is CommandCatalog over the maps of
--                     Tree; Analyzer is that of src/koc_proxy.rs, with catalog_reader
--   Proxy/*           src/proxy.rs: Queue is prepare_record and enqueue_record, and its Budget the
--                     steps of all connections and of the analyzer as a relation; Origin is
--                     validate_upstream_origin, build_upstream_url and the checks of run_relay
--   Kpi/*             src/kpi.rs: Request and Commands are the methods that send one command, Session
--                     how they talk to the server, Env and Status what is read from JSON, Report
--                     DailyTaskReport, Team the switching of teams; Daily/* is the run
--                     run_daily_tasks_stateful: Main, Fights, Extra and Dream its tasks, Run their
--                     order; Vehicles and Cars are claim_all_cars and smart_send_car; Keeps, Kept,
--                     Whole and Order are rules for what a run keeps, Gives for what it returns,
--                     Evidence, Sets and AllDone what holds after it
--   Common/*          shared types and lemmas; ℤ and the tests stand on the native ℕ
-- The modules named Tests run the code and apply the theorems to concrete values.
--
-- A byte is a number, a text its UTF-8 bytes, a float its bit pattern (in State a type of its own).
-- Integers of fixed width wrap where the source wraps: the words of BON at 2 ^ 32 and 2 ^ 64, the
-- round counter at 2 ^ 32. A method that changes `self` returns the new state; one that can fail
-- returns an Option or a Result whose errors are constructors in place of the source's messages.
-- Random masks and paddings, and the dates of the clock, are arguments; in a run of Kpi the clock
-- stands still. There a method is an action on a session, the list of what was exchanged and the
-- variables that the method changes, and the server is any function that answers a request by what
-- was exchanged before.
--
-- Bounds: wildcard_loop has fuel for every pair of a place in the value and a place in the pattern,
-- which is enough since each round goes on in the value or starts again at a later place of it.
-- The loop of read_records has fuel; each round takes a byte at least, so more fuel than bytes is
-- enough. The decoder recurses on the levels that are left, one more than max_depth, which is
-- the depth the source allows. The seven-bit groups recurse on the number that they write. An i32
-- is printed with ten digits at most, the most that one has. The refreshes of a car in
-- smart_send_car have no bound in the code: `rounds` bounds those that are followed, the result
-- says whether the run has returned within them, and what holds of the session holds for any
-- number of rounds.
--
-- Parameters: serde_json's numbers and lz4_flex's frames, the base64 and url crates, tokio's
-- semaphore and the parsing of a line of a capture file are records of operations with the laws
-- that the theorems rely on; the modules Tests and Json/Sample have concrete ones.
--
-- Not modelled: the sockets, the HTTP login, the prompts and the printing, which are input and
-- output, and with them the relaying of frames and the waiting for responses; of src/kpi.rs the
-- periodic tasks and the login; the command line; of src/scheduler.rs the running of roles, of
-- src/config.rs the bins, dream shops and reloading, and of src/state.rs the files and the
-- updates of times. Logging is left out everywhere.
pub mod Common
pub mod Utf8
pub mod WebSocket
pub mod Json
pub mod Bon
pub mod Crypto
pub mod Hortor
pub mod Protocol
pub mod ErrorCodes
pub mod Config
pub mod State
pub mod Scheduler
pub mod Capture
pub mod Proxy
pub mod Kpi
