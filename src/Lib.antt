-- ===== src/Lib.antt =====
-- Tributary: an agent that reads log files and other sources, turns each line into a record of line
-- protocol and ships batches of records to TimeLakeDB, with a disk queue for what cannot be shipped.
-- The files model these parts of crates/tributary/src, one module each, in the order of a line's way:
--
--   Tail       tail.rs       `Tailer`: a file followed through rotation (resume, next_line, marks)
--   Multiline  multiline.rs  `Joiner`: lines joined into records (push, expire, drain)
--   Cri        cri.rs        `Reassembler`: fragments of container logs put together, by stream
--   Docker     docker.rs     `Reassembler`: chunks of docker's json-file lines put together
--   Framer     main.rs       `Framer`: which of these three a source uses, and how it is emptied
--   Map        map.rs        `map_line`, `build_record`: a line as a record of declared fields and tags
--   Transform  transform.rs  filters, samples and redactions of a record
--   Stamp      stamp.rs      `Stamper`: a unique nanosecond timestamp for each line of a stream
--   Watermark  watermark.rs  `Watermark`: up to which source time a stream is complete
--   Build      main.rs       `build`: the stages of a line, from Map to Stamp, and what they drop
--   Lp         lp.rs         `Record::encode`: one record as one line of line protocol
--   Ship       ship.rs       `Shipper`: one request, its errors, and the isolation of refused lines
--   Queue      queue.rs      `Queue`: batches spooled to files and retired in order
--   Checkpoint checkpoint.rs `Checkpoint`: the resume state of a stream on disk
--   Pipeline   main.rs       `Pipeline`: batches in flight, queued and held; flushes and checkpoints
--   Config     config.rs     `Config::read`: what is expanded and checked when a configuration is loaded
--   Reload     main.rs       `apply_reload`, `reload_source_set`: what a new configuration changes in place
--   Journald   journald.rs   `run_journald`: the systemd journal, by cursor, through a queue of its own
--   Winlog     winlog.rs     `run_winlog`: the Windows event log, with the same loop
--   Credential credential.rs `RotatingIdentity`: the client certificate and its renewal
--   Glob       glob.rs       `wildcard`, `matches`: the files of a pattern
--   Logfile    logfile.rs    `RotatingLog`: the agent's own log, rotated and kept
--   K8s        k8s.rs        pod, namespace and container out of the name of a container's log
--   Prelude    (shared)      tests, lists, maps, decimal numbers, 64-bit integers, sorting
--
-- State is a record with the fields of the Rust struct, and each method a function to the answer and
-- the new state. Strings are lists of bytes. i64 values are integers whose additions wrap where the
-- source's could leave the range, and u64 counters wrap at 2 ^ 64. A HashMap is an association list and
-- a VecDeque a list, oldest first. What the program calls is an argument: the regex of a joiner, the
-- clock, the printing of a float, the compressor, JSON, the database behind the network (its contract is
-- the record Ship.Database.Database), and the answers of the file system.
--
-- Fuel: send_loop counts rounds of the source's `while`; a batch of n lines needs at most 2 n - 1 of
-- them, one more for each 429 and one to end; when it runs out, a Pipeline.Run is stuck. The loops of
-- Pipeline take as many steps as there are batches or segments, which is proved to be enough. The queue of
-- Journald takes a round for each segment. Glob.wildcard has a step for each pair of positions in name and
-- pattern, which is proved to be enough. The endless loops of the journal and the event log count their
-- turns. Config.Expand.expand_loop takes a step for each reference, of which a text has at most as many as
-- it has bytes. Logfile.target tries the 1001 names that the source tries. Every other loop is a recursion
-- on a list.
--
-- Not modelled: the asynchronous runtime of main.rs (a batch's task runs when it is joined, and the
-- order of the joins is arbitrary) and its main loop, the parsing of the configuration, the
-- metrics and OTLP sources, the C interfaces of libsystemd and Windows, the HTTP servers, TLS itself, the
-- log messages.
pub mod Prelude
pub mod Build
pub mod Checkpoint
pub mod Config
pub mod Credential
pub mod Cri
pub mod Docker
pub mod Framer
pub mod Glob
pub mod Journald
pub mod K8s
pub mod Logfile
pub mod Lp
pub mod Map
pub mod Multiline
pub mod Pipeline
pub mod Queue
pub mod Reload
pub mod Ship
pub mod Stamp
pub mod Tail
pub mod Transform
pub mod Watermark
pub mod Winlog
