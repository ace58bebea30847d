-- ===== src/Lib.antt =====
-- stacks-dex-pools: a mirror of the state of the exchange pools on the Stacks chain, kept up to date
-- by events and quoted locally. This library models its core, part by part.
--
-- The program decodes Clarity values (src/codec), wraps contract events (src/pool/event.rs) and
-- applies them to pools; a pool answers quotes by integer arithmetic on its mirrored state. The
-- registry (src/registry.rs) keeps the pools, the topics to poll and the watermarks. The collector
-- (src/collector) polls the contracts, sends new events through a queue that drops duplicates, and
-- dispatches them to the pools. The pools are Bitflow DLMM (src/dlmm), whose liquidity lies in 1001
-- bins of fixed price, four kinds of constant-product pools (src/v2), and stable pools on the Curve
-- invariant (src/stableswap).
--
-- Parts:
--   Prelude: names passed on from the libraries; Prelude/Word has the saturating and checked
--     operations of Rust's words, Prelude/Outcome what a run ends in (a value, a panic, or fuel that
--     ran out), Prelude/Division floors and ceilings, Prelude/Int signed integers, Prelude/Text the
--     bytes of a Rust string, Prelude/Bytes big-endian words and UTF-8, Prelude/Partial chains of options
--     and guards that return early, Prelude/Fallible chains of `anyhow::Result`.
--   BTreeMap: the standard library's ordered map with `i32` keys, as a list in key order. AssocList:
--     hash maps, whose order no result rests on.
--   Pool/Principal, Pool/Event, Pool/Base: src/pool/principal.rs, src/pool/event.rs and
--     src/pool/base.rs.
--   Pool/Address: the parsing and the display of principals, from the same file.
--   Codec/Clarity, Codec/Encode, Codec/Decode: src/codec/clarity.rs, with cv_encode and cv_decode by
--     their names. Texts are their bytes, and a tuple is the list of its fields in the order of the
--     keys. The decoder recurses on fuel, which is one more than the length of the buffer, since a value
--     takes at least a byte. Codec/Wire says which values the program's types can hold.
--   Codec/C32Check: src/codec/c32.rs; SHA-256 is a parameter, of which only the length of a digest is used.
--   Rpc/Hex, Rpc/Response, Rpc/Events, Rpc/BlockWalker, Rpc/Client, Rpc/TokenInfo: src/rpc/events.rs,
--     src/rpc/block_walker.rs, src/rpc/client.rs and src/token_info.rs. A request is a function that
--     answers with a status and with what the body parses to. The loop over the pages of a block runs
--     on fuel; one round more than there are transactions is enough. Rpc/Reads has what the bootstraps
--     read with, a client that is pinned to one block.
--   Dlmm/Constants, Dlmm/Math: src/dlmm/mod.rs and src/dlmm/math.rs, each function by its name.
--     Words are natural numbers; `Profile` says whether the build panics on overflow or wraps.
--   Dlmm/Pool, Dlmm/Quote: src/dlmm/pool.rs. The two quote loops have one body, `walk_round`, over a
--     `Direction` (`down` for quote_x_for_y, `up` for quote_y_for_x). The loops run on fuel: one round
--     for each bin id from the active bin to the end of the range, and one more. Dlmm/Quote/Refine
--     shows that this is enough. Dlmm/Interface: topics and calculate_output of the same file.
--   Dlmm/Events: src/dlmm/events.rs. `apply_event` returns the new pool, since the Rust function
--     returns `Ok(())` on every path; the system clock's time is an argument, and logging is left out.
--   Dlmm/Factor, Dlmm/Multicall, Dlmm/Listing, Dlmm/Discovery, Dlmm/Fetch: src/dlmm/factor.rs,
--     src/dlmm/multicall.rs, src/dlmm/discovery.rs and src/dlmm/fetcher.rs. The order in which
--     concurrent answers arrive is an argument, `arrivals`. The loop over the chunks runs on fuel, the
--     number of the ids, since a chunk holds at least one.
--   V2/Math, V2/Arkadiko, V2/Velar, V2/Alex, V2/BitflowXyk, V2/Events: the files of these names in
--     src/v2, and V2/Fetch: src/v2/fetcher.rs. A handler returns the pool and whether the event was
--     applied. V2/Math/Swap has the exchange that all four kinds share, and what follows from its
--     shape alone.
--   Stableswap/Curve, Stableswap/BitflowV1, Stableswap/BitflowV2, Stableswap/Events: the files of
--     these names in src/stableswap. The Newton loops run on fuel, which is the bound of 384
--     iterations of the source; when it is used up the last iterate is the result, as in the source.
--   Stableswap/Fetch: src/stableswap/fetcher.rs.
--   StxWrap: src/stx_wrap.rs.
--   Registry: src/registry.rs and the `dispatch` of src/collector/event_processor.rs, over a record
--     `PoolInterface` of what they use of a pool. A handle is the pool's id. Which locks `try_read`
--     finds taken is an argument, `contended`. `Step` and `Reachable` are the changes of a registry
--     and what they lead to.
--   Collector/Queue: src/collector/event_queue.rs. The order in which the set of seen keys is iterated
--     over is an argument; the channel is the list of the events sent.
--   Collector/Poller: `poll_once` of src/collector/event_poller.rs. The request of a page is an
--     argument; the loop over the pages recurses on the pages that are left.
--   Collector/BlockWalk: `tick` of src/collector/block_walking_source.rs. The chain tip, the
--     transactions of a block and the events of a transaction are arguments.
--   Collector/Processor: the loop of src/collector/event_processor.rs, over what its turns find.
--   Collector/Handle: src/collector/handle.rs with the start of src/collector/bootstrap.rs and the
--     pollers of src/collector/per_contract_source.rs; a task is the contract that it polls, and the
--     source is taken to read the registry before the handle changes it.
--
-- Errors are values without their message: a message that would show a principal of version 32 or more,
-- which panics, is left out, and so is what an allocation, the depth of the stack or a waiting time
-- beyond what a Duration holds may do. The counters of a tick are not bounded.
--
-- Not modelled: the sending of requests, JSON and URLs, which other packages do; the spawning of tasks,
-- timers and metrics of src/collector, logging, serde, and the binaries in src/bin. The tests beside the
-- code are followed by the modules named Tests.
pub mod Prelude
pub mod BTreeMap
pub mod AssocList
pub mod Pool
pub mod Codec
pub mod Rpc
pub mod Dlmm
pub mod V2
pub mod Stableswap
pub mod StxWrap
pub mod Registry
pub mod Collector
