-- ===== src/Lib.antt =====
-- A serving stack for DeepSeek V4 on MI300X: the parts that decide what the disk tier of the KV
-- cache may read, write and delete, and those that turn an answer's text into tool calls.
--
-- The scheduler asks for external KV blocks under a fail-open policy (patches/kv_lookup_fail_open.py,
-- module LookupPolicy). The disk tier looks keys up in the background (patches/async_lookup.bounded.py,
-- AsyncLookup), leases the hash shards that requests and jobs use, evicts the shards that nobody uses
-- (`ShardLeaseIndex` of patches/tiering-fs-bounded-lru.py, ShardLeases), and shares the disk with
-- sibling processes through file locks (`SharedEvictionGate` of the same file, EvictionGate). The
-- tier itself (`FileSystemTierManager` of patches/tiering-fs-manager.disk-reserve.py, FsTier) submits
-- stores and loads, keeps a reserve of disk space, and runs the evictions over all of these.
--
-- The scheduler's own part (patches/offloading-scheduler.dspark-prefix.py, Scheduler) is the lookup of
-- a request's prefix among the answers of the offloading manager, and the waiting for it.
--
-- The streaming parser (patches/streaming-parser-engine.dsml-orphan.py, with the tables of
-- patches/parser-deepseek-v4.dsml-orphan.py and patches/parser-deepseek-v32.dsml-orphan.py, module
-- Parser) turns the text of an answer into events, and recovers tool calls whose wrapper is missing.
-- The scanner and the lexer are not in the repository: `Parser.Feed.Lexing` is what the engine calls
-- of them, an argument of which nothing is assumed. A text is a list of code points; the terminals are
-- an enumeration of the names in the two tables.
--
-- From the events a parser makes the messages for the client (patches/parser-engine.dsml-orphan.py,
-- Deltas): Deltas.Slots has the handlers of a tool call's slot, Deltas.Messages the loop over the
-- events, Deltas.Serving `parse_delta` over the engine, Deltas.Parsing `parse` of a whole answer,
-- and Deltas.Reasoning the questions about token ids. The converter of arguments, the tools'
-- schemas, the reading of JSON and the ids are the records `Deltas.Tools` and
-- `Deltas.Parsing.Extraction`, of which nothing is assumed. The index of an event and of a delta is
-- one more than the source's, which starts at -1.
--
-- How the model corresponds to the code:
--   * An object is a record of its fields, and a method is a function from the record (and, where the
--     kernel's locks decide, the state of the other processes) to the new record and the result. The
--     functions carry the methods' names; a method with two locked blocks is two functions.
--   * Identifiers (requests, jobs, keys, shards, processes, cancellation tokens) are numbers, which
--     are compared only; a shard's number is its three hex digits, whose order is that of the paths.
--     Times are clock ticks, given as arguments. A `dict` is an association list in insertion order
--     (Prelude.Map), a `set` a list of numbers.
--   * `fcntl.flock` is the kernel's rule for shared and exclusive locks: in EvictionGate the
--     processes are a map and each system call is one step, so that a run is any interleaving of them;
--     in ShardLeases an argument `Siblings` says what the other processes hold.
--   * An exception is a value: `Created` and `raise` for the constructors, `none` elsewhere.
--   * A run (`run`, with `step`) is a list of calls in any order; each call is one locked block, so runs
--     cover the interleavings of the threads. LookupPolicy, EvictionGate,
--     ShardLeases.Runs, AsyncLookup.InFlight.Runs, FsTier.Runs, Scheduler.Matching.Runs, Parser.Streams
--     and Deltas.Serving.Suppressed have one.
--   * What the outside says during a call of the tier (the clock, `statvfs`, the siblings, the thread
--     pool, the file mapper) is the record `FsTier.Env`; the thread pool's queues are not modelled.
--   * The loop of `flush` takes its turns on fuel, one for each key and each request of the step. Each
--     turn uses up a key or a request when the chunk size is positive.
--
-- The constructors' checks of negative arguments have no counterpart, as the arguments are natural
-- numbers. Of `get_num_new_matched_tokens` the keys and blocks of the request's groups are left out.
--
-- Not modelled: paths and their normalisation (an operation takes the shard that `shard_for_path`
-- gives, or `none` where it raises), the scan of the directory, descriptors and deletion, logging,
-- threads and their shutdown (no run has a call of `shutdown`); the jobs and blocks of the
-- scheduler; the parser's entry points that extract tool calls alone, and its coercion to JSON
-- schemas; the other files under patches/, which are GPU kernels, utilities and patchers, and the
-- deployment files.
pub mod Prelude
pub mod LookupPolicy
pub mod EvictionGate
pub mod ShardLeases
pub mod AsyncLookup
pub mod FsTier
pub mod Scheduler
pub mod Parser
pub mod Deltas
pub mod Tests
