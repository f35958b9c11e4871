-- ===== src/Lib.antt =====
-- yakutil: the shared primitives of the uniyak libraries. Each package of the repository stands by
-- itself, apart from a few that call the hash of package hash; a program puts them together. What
-- follows is the model of these packages, one module for each, by the path of its source:
--
--   * Ring (ring/ring.go): the growing ring of bytes. Buffer has the record and Write, WriteByte,
--     Read, ReadByte, UnreadByte, Discard, Reset and grow; Segments has Peek, PeekSegments,
--     ReadableSegments, CommitRead, WritableSegments and CommitWrite; Stream has WriteTo and
--     ReadFrom. Copies, Inv, Reads, Writes, Peeks, Commits, Streams, Fills and Unread are about them.
--   * Arena (arena/arena.go): the bump allocator. Chunks has New, Alloc, Reset, Snap, Restore and
--     Stats; Allocs is about a call of Alloc on its own, Slices about the calls of several goroutines,
--     Snapshots about Restore.
--   * Art (art/tree.go, art/node.go): the adaptive radix tree. Keys compares bytes, Tree has the nodes
--     with Get, Put and Delete, Walk has ForEach, Seek and ScanPrefix; Paths says when a tree is in
--     order, Forks, Splits, Puts and Insertions are about Put, Shrinks, Deletes and Removals about
--     Delete, Counts and Losses about the size, Entries, Ordered, Lookup, Seeks and Scans about the
--     entries in order; Maps has the results for the tree. Shapes, Rooms and Thinning are about the
--     room in the nodes.
--   * Backoff (backoff/backoff.go): Spin has Spin and Reset of the adaptive wait, Phases is about them.
--   * Lru (lru/lru.go): the sharded cache. Shard has the list and the map of a shard with get, set,
--     del, unlinkOldest and purge; Cache has New, Get, Set, Del, Len and Purge over the shards; Range
--     has rangeAll and rangeBatch. Order, Recency, Eviction and Sharding are about them.
--   * Ratelimit (ratelimit/ratelimit.go): the token bucket. Bucket has New, Reset and AllowN when nobody
--     comes between, Calls has the atomic steps of AllowN; Paid and Bounds are about these, Waits about
--     a call on its own. For ratelimit/ipmap.go, Addresses has the map of limiters by address, with
--     AllowN, Get, Evict, Purge, TopN, TopNRecent and Len; Admissions, Isolation and Answers are about
--     AllowN, Collects and Evictions about Evict and Purge, Tops about TopN and TopNRecent, Windows
--     about the recent hits. It works on the model of Smap, with ByKey of Topn.
--   * Semaphore (semaphore/semaphore.go): Permits has the atomic steps of Acquire, AcquireContext,
--     TryAcquireN and ReleaseN; Holders is about who holds a permit, Sleeps about a wait in Acquire.
--   * Sketch (sketch/sketch.go): the count-min sketch. Counters has NewSized, Add, Count, Merge and Reset;
--     Rows and Fills say what the counters hold after calls of Add, Estimates is about Count, Merges
--     about Merge and Reset.
--   * Smap (smap/smap.go): the sharded maps. Shards has New, Get, Set, Del, GetOrSet, Len and Range of
--     Map and of Map64; Entries and Steps are about the shards, Calls has what a plain function from
--     keys to values answers to calls, Held and Deletions are about single calls, Runs and Fibonacci
--     about all calls on a map, Ranges about Range.
--   * Spsc (spsc/ring.go): the ring of one producer and one consumer. Slots has New and the atomic
--     steps of Push and Pop; Counters and Invariant say what the ring holds for its queue, Pushes and
--     Pops take the steps one by one, and Queue puts them together.
--   * Topn (topn/topn.go): Select has TopN, by a partial selection or by a sort, and ByKey; Orders, Best
--     and Rounds are about the selection, Firsts about both; Insertion is a sort for the tests.
--   * Wheel (wheel/wheel.go): the timing wheel. Slots has New, Add, Cancel, Advance and Len; Waits is
--     the clock that the wheel is to keep, a list of timers with the ticks that each has left; Ticks,
--     Additions, Cancels and Schedule relate the two.
--   * Base: what they share. Lists and Window are lists by native indices and rings of them; Bits is
--     about masks, Int about Go's int and uint, Doubling about the loops that round a size up to a
--     power of two, Keyed about lists of items that have a key.
--
-- An operation takes the state and returns it anew, with what the source returns. `none` is a panic
-- or a loop that does not end; an error of the source is a value of its own. A uint wraps at 2^64
-- as written; an int that the source keeps below 2^63 is a plain number, and subtraction is written
-- so that it does not stop at 0 where the source's does not. The tokens of Ratelimit, which can wrap
-- to below zero, are the int64 with 2^63 added. A negative duration or count counts as 0, where the
-- source treats the two alike.
--
-- Bounds and fuel: a size doubles for at most `int_rounds` = 64 rounds, and 62 doublings reach any
-- size up to 2^62, the largest power of two that is an int; beyond that the source's loop does not
-- end. Alloc of the arena takes its rounds as an argument. ReadFrom takes the rounds as an
-- argument, more of them than reads that the reader can still answer; RangeLimit takes the batches
-- as one.
--
-- io.Writer and io.Reader are a state and a step, with the laws that package io documents. The hash
-- of hash/maphash is a function from keys to numbers. The clock is a reading that a call is given.
-- A map of Go is the list of its keys and what they point to, and ranges in an order that is a
-- parameter; slices.SortFunc is a parameter with the laws that package slices documents; a linked
-- list is the list of its nodes, each known by its key or id; a callback works on a state that it
-- is given. Locks are not there: a call holds one from start to end, so that calls follow each
-- other, except in RangeLimit, where the state is read anew for each batch. Arena, Ratelimit,
-- Semaphore and Spsc have no locks: calls at the same time are sequences of the atomic steps of all
-- of them.
--
-- In Art a key is the list of its bytes, and a position in it is what follows the position. The
-- children of a node are a list of bytes and nodes, and a node that is changed in place is returned
-- anew; the arrays in which each kind keeps them are not there, nor is the arena of the prefixes.
--
-- Not modelled: the zero value of Buffer, the layout of structs in memory, pools of free objects,
-- what becomes of a limiter that Get of an address has handed out once Evict has taken its entry
-- out, and the packages not named above.
pub mod Arena
pub mod Art
pub mod Backoff
pub mod Base
pub mod Lru
pub mod Ratelimit
pub mod Ring
pub mod Semaphore
pub mod Sketch
pub mod Smap
pub mod Spsc
pub mod Topn
pub mod Wheel
