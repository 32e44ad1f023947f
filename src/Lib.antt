-- ===== src/Lib.antt =====
-- NativeLink is a remote execution and caching server for builds. This library models the part that
-- decides: which worker runs an action, how an action's state follows what its worker reports, what
-- the cache behind the stores keeps, and which bytes reach a store under which name.
--
-- The parts, and the files that model them:
--   nativelink-util/src/platform_properties.rs    PlatformProperties
--     typed properties of workers and actions, and the test whether a worker satisfies an action
--   nativelink-scheduler/src/worker.rs            Worker
--     one worker: its free resources, its running actions, placing and completing an action
--     (`place_action` is `run_action`)
--   nativelink-scheduler/src/api_worker_scheduler.rs   ApiWorkerScheduler
--     the pool of workers: joining, leaving, eviction, timeouts, the search for a worker (the
--     inner `add_worker` and `remove_worker` are `put_worker` and `pop_worker`)
--   nativelink-scheduler/src/simple_scheduler.rs  SimpleScheduler
--     the matching engine: queued operations are handed to workers; with
--     nativelink-scheduler/src/platform_property_manager.rs, which types their properties
--   nativelink-scheduler/src/simple_scheduler_state_manager.rs   StateManager
--     the update of an operation, its retries, its timeout, and the filter of queries
--   nativelink-scheduler/src/awaited_action_db/awaited_action.rs   AwaitedAction
--     the record of a waiting action and the key by which actions are sorted
--   nativelink-util/src/evicting_map.rs           EvictingMap
--     the bounded map behind the stores (`forget` and `put_entry` are `State::remove` and
--     `State::put`)
--   nativelink-util/src/retry.rs                  Retry
--     which errors are retried, and the retry loop
--   nativelink-store/src/size_partitioning_store.rs    SizePartitioningStore
--     a store that routes each digest to one of two stores by its size
--   nativelink-store/src/verify_store.rs          VerifyStore
--     a store that checks the size and the hash of an upload while it forwards it
--   nativelink-util/src/buf_channel.rs            BufChannel
--     the channel that carries the bytes of an upload or a download, with its two halves
--   nativelink-util/src/fastcdc.rs                FastCdc
--     the chunker that cuts a stream into frames by its content
--   nativelink-util/src/resource_info.rs          ResourceInfo
--     the names by which clients upload and download
--   nativelink-util/src/action_messages.rs        ActionMessages
--   nativelink-error/src/lib.rs                   Base.Errors
-- Base holds what they share, and Examples applies the theorems to small values.
--
-- The matching engine asks the state manager for what waits and the pool for a worker, assigns the
-- operation and tells the worker. The pool hands an action to a worker, whose resources are reduced
-- until the action completes; it reports each update to the state manager, which stores the new
-- stage in the database of actions or returns the action to the queue. The database, the clocks, the
-- channels to the workers, the hashers, the entries of a map and the crate `lru` are parameters:
-- records of operations, with the documented behaviour as laws where a theorem needs it (Base.Lru,
-- which Base.Lru.ListCache implements).
--
-- The bytes of an upload come through a channel. The reader of BufChannel has the list of the buffers
-- that are still to arrive, and knows whether the writer ends the stream, so an operation that waits
-- has its outcome; the writer keeps what it has sent, and a function says which buffers its receiver
-- takes. VerifyStore reads one channel and writes another, from which the store behind reads.
--
-- A method that holds a lock is a function from a state to the next state and its result; one that
-- may panic returns an option. What other tasks do between two calls of the database is left to the
-- database's `World`. An `i32` is an integer, a `u64` a number below 2 ^ 64 with its wrap-around
-- written out, a hash map an association list, a time a number of nanoseconds, milliseconds or
-- seconds, as in the source. The one float that is computed with, the delay of a retry, is a sign, a
-- mantissa and an exponent, and is cut as the source cuts it. The loop of `evict_items` runs on fuel, the number of entries, of which each round drops
-- one; `update_loop` runs on the number of rounds that the source allows; the loops over a channel run
-- on fuel of more than the number of its buffers, since each round takes one.
--
-- Not modelled: the other stores and their back ends, the services, the worker's process, the tasks
-- that the scheduler starts, the in-memory and stored databases of actions, conversions to and from
-- the protocol, metrics, log lines and the text that is formatted into messages.
pub mod Base
pub mod ActionMessages
pub mod PlatformProperties
pub mod Worker
pub mod ApiWorkerScheduler
pub mod EvictingMap
pub mod AwaitedAction
pub mod StateManager
pub mod SimpleScheduler
pub mod Retry
pub mod BufChannel
pub mod FastCdc
pub mod ResourceInfo
pub mod SizePartitioningStore
pub mod VerifyStore
pub mod Examples
