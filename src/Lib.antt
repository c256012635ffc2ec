-- ===== src/Lib.antt =====
-- A model of Sagittarius, a filtering DNS forwarder: the codec, the listeners' handlers, the pipeline
-- of decision stack, cache and forwarding leaf, the upstream pool, the blocklists with their refresh,
-- the stored settings, and the guards of the web interface.
--
-- A datagram, or a framed message of a connection, reaches the program as bytes. `Query::parse` reads
-- its header and one question, and what does not parse is answered or dropped by
-- `ParseError::reject_action`. Names are read with `Name::read_question`, which refuses compression,
-- and skipped in the record sections with `Name::skip_rr`, which follows compression pointers. The
-- decision stack answers a question from the local records or with a block response, or passes it
-- on: to the cache, behind which the leaf forwards it to a zone's resolver or to the pool. The
-- builders of `Response` make the server's own answers, with an OPT record where `EdnsInfo::scan`
-- found one in the query. An upstream's response is scanned by `TtlScan::scan`, and the cache counts
-- the TTL fields down that the scan found. The blocklist that the stack reads is the aggregation of
-- the names that the parsers find in the subscribed lists, which the scheduler fetches, keeps in the
-- database, and installs when each of them is there. The settings are a row of the database, which a
-- form of the web interface writes, with the live state behind it; the guard in front of each form
-- checks the origin of a request, its session and the session's token.
--
-- Files, and the code they model (paths from the repository's root):
--   Prelude            names of the libraries, Boolean tests, lists, bit operations
--   Codec/Error        src/codec/mod.rs, the errors, and the result type of all fallible operations
--   Codec/Reader       src/codec/reader.rs; a `&mut Reader` is a reader passed in and a new one returned
--   Codec/Writer       src/codec/writer.rs; a `&mut Writer` is the buffer passed in and the new one
--   Codec/Framing      src/codec/framing.rs
--   Codec/Name         src/codec/name.rs; Name/Skip is `skip_rr`, Name/Reverse the reverse names, the
--                      other children hold proofs
--   Codec/Header       src/codec/header.rs
--   Codec/Message      src/codec/message.rs
--   Codec/Ttl          src/codec/ttl.rs
--   Codec/Edns         src/codec/synth.rs, `EdnsInfo`
--   Codec/Synth        src/codec/synth.rs, `BlockMode` and `Response`
--   Resolver/Cache     src/resolver/cache.rs; moka's map is the parameter `Moka`, the clock an argument
--   Resolver/Suffix    src/resolver/local.rs, `LocalRecords::lookup`, and src/resolver/forward_zone.rs,
--                      `ForwardZoneSet::match_target`
--   Resolver/Local     src/resolver/local.rs, the builder and the reverse index; Added is about its `add`
--   Resolver/State     src/resolver/state.rs, src/resolver/matchset.rs and the values of
--                      src/storage/settings.rs; an atomic pointer is the value it points to
--   Resolver/Upstream  src/resolver/upstream: Health is health.rs, Order and Pool are pool.rs; an
--                      exchange, a race of tasks and floating point are parameters
--   Resolver/Pipeline  src/resolver/pipeline: Decide is layers.rs, CacheLayer cache_layer.rs, Forward
--                      forward.rs, Middleware middleware.rs, Engine engine.rs, Listener listener.rs;
--                      a tower service is a function of the request and of the shared state
--   Blocklist          src/blocklist: Parse is parse.rs, Aggregate aggregate.rs, Fetch fetch.rs and
--                      Scheduler scheduler.rs, with its loop in Run
--   Storage            src/storage: Sqlite has the tables and how a statement ends, Blocklists, Settings,
--                      Upstreams and Sessions are the repositories of these names
--   Web                src/web: Settings is settings.rs, Upstreams `rebuild_upstream_pool` of upstreams.rs
--                      with `build_upstream_pool` of the pipeline, Render the errors of render.rs,
--                      Crypto, Origin and Csrf are the files of these names, Auth is the session check of
--                      auth.rs, and Http is what they use of a request and of std's strings
--   Telemetry          src/telemetry: Stats is stats.rs, with the event of event.rs; a history of events is
--                      a list, the latest first
--   Codec/Tests, Resolver/Tests, Blocklist/Tests, Storage/Tests, Web/Tests, Telemetry/Tests
--                      runs on concrete data
--
-- Bytes and machine integers are native numbers; what the writers emit is cut to the width of the
-- field (`% 256`). A loop that has no structural measure runs on fuel, and `out_of_fuel`, which is no
-- value of the program, marks a loop that was given too little. `read_question` gets 128 rounds: a
-- label takes two octets of a name of at most 255. `skip_rr` gets 272: sixteen pointers, 255 labels
-- of one octet or more, and the last round. The search for a cookie gets one round for each octet of
-- its record and one more. A connection gets one round for each octet and one more, and
-- `weighted_permutation` one for each upstream and one more.
--
-- A run of the scheduler is the list of its turns, each with the arm of `select!` that was taken and
-- with what the other tasks did before. Requests are served one after the other, on one state; what
-- tasks do at the same time is not modelled, and a race of upstreams is the list of its results in the
-- order in which they come in.
--
-- A statement of the database is a function of the tables that ends as the driver says: an entry of the
-- list of faults makes it fail and leave the tables as they are, and past the list it is carried out.
-- The constraints that a statement can violate are written out with it. A `reqwest` request is the
-- parameter `send`, which takes and returns the state of the network; `lossy` is
-- `String::from_utf8_lossy`, `now` the clock, and the digests, the HMAC and the JSON of the guards
-- come from a record of functions.
--
-- Not modelled: the tables of the lists, of the local records, zones, users and API keys, and the query
-- log; the other handlers of the web interface and its templates; the configuration sync; and sockets.
-- They are SQL, HTTP and input and output for the most part. `Display` texts are left out as well.
pub mod Prelude
pub mod Codec
pub mod Resolver
pub mod Blocklist
pub mod Storage
pub mod Web
pub mod Telemetry
