-- ===== src/Lib.antt =====
-- placefs, a file system that keeps file contents in append-only segment files on a hot and a cold
-- tier, and everything else in an ordered key-value database.
--
-- A write through store/handle.go goes to the inode's buffer in store/coalescer.go, cut into extents
-- that each lie in one stripe and carry a sequence number. A flush hands a batch of extents to the
-- index, which appends them to segments (segment/segment.go) and records a fragment for each
-- (index/fragment.go) under a key of kv/keys.go. A read merges the fragments of the index with those
-- of the buffer by sequence number (planRead) and copies the slices of that plan.
--
-- The modules, and the code they are about:
--   Common       lists and tests over the native numbers, little- and big-endian fields, the byte
--                order of keys, signed integers
--   Keys         kv/keys.go: the keys, their fields, their order and PrefixUpperBound
--   Fragment     index/fragment.go: the fragment codec, planRead and canonicalView
--   Segment      segment/segment.go, type Segment: frames, AppendCtx, ReadAt, truncate and Scan
--   SegmentSet   segment/segment.go, type Set: OpenSet, ActiveCtx, Get, Remove and RepairTail
--   Coalescer    store/coalescer.go, one inode's buffer: Write's loop, FragmentsFor and CopyOut
--   Buffers      store/coalescer.go, all inodes: Write, InvalidatePastSize, the two locked parts of
--                flushInode, and Drop, with what is held of the global semaphore
--   Fsync        store/coalescer.go, Fsync as steps among writes, flushes, truncations and Drop, over
--                the done channels of the batches
--   Handle       store/handle.go: ReadAtCtx over a plan of fragments on disk and in the buffer
--   Node         store/store.go: a file's attributes and their encoding
--   Mover        mover/mover.go: the backoff, and eviction and GC passes over the index (Evict)
--   Errors       the errors of the parts below, and calls that may fail
--   Kv           kv/db.go over pebble; Kv.Laws is what pebble documents, and Kv.Memory a database
--                that keeps to it; kv/migrate.go, the copy of a bbolt database (Migrate)
--   Index        index/index.go: reads, Truncate and DeleteInode; appends (Append, Bulk), the stripes
--                (Upkeep), Move, GC, the migration of old blobs (Migrate), and Open (Open)
--   Store        store/store.go: attributes and lookups, and the operations on names (Create, Remove,
--                Rename, Attr); the write paths of store/handle.go (Write, Flush) and flushInode of
--                store/coalescer.go over the index (Flush)
--   Fuse         fuselayer/fuselayer.go: what the kernel is answered, and fuselayer/metrics.go (Metrics)
--   Sizes        cmd/placefs/bytes.go: sizes on the command line, of ASCII texts
--
-- Pebble is a parameter: a type of databases with a read, a scan and a commit. Kv.Laws says that a
-- database is a sorted map from keys to values, that reads and scans see all of it and do not fail,
-- and that a commit applies the whole batch or, where it fails, nothing. The definitions handle
-- failing reads too. An index has its database and its two segment sets, and a store its index and
-- its buffers. A batch is built from the database as it was before the batch. A panic is `none`.
--
-- A function of the code is a definition with its name in snake case, on a record with the fields of
-- its Go type. A method that changes its receiver returns the new one beside its result. What the
-- operating system does is an argument: a write ends early or not, a sync, an unlink or an open
-- fails or not. What stands between a lock and its unlock is one step. Times are arguments.
--
-- Offsets, lengths and sizes are natural numbers: the code's int64 does not go below zero there, and
-- files whose offsets come near 2^63 are left out. Counts that the code lets fall below zero are
-- integers. Sequence numbers and segment ids wrap at 2^64 and 2^32.
--
-- Some loops run on fuel. Scan gets one more than the bytes of the file and each record takes 44
-- bytes or more; the loops that cut data at stripe ends get its length, and each round takes a byte or
-- more. That these are enough for Write and AppendToWithTxCtx is a result below. The 1000 rounds
-- of isDescendant are the code's own.
--
-- Not modelled: the configuration of index.Open, the opening of a store, what closes or syncs files
-- and databases and does no more, the locks, the loop of mover/mover.go, the admin pages, and
-- tracing. The queue and the workers that decide when a flush runs are left open: a flush may begin
-- and settle at any time. An operation of the index is one step: those that rewrite or remove hold
-- writeMu, and appends share it. The operations of the store take no lock around their reads and
-- their commit; they are one step here, as where no other call comes between, but for Create, of
-- which two calls may overlap (Store.Raced).
-- The hash/crc32 checksum is written out from its definition.
pub mod Common
pub mod Keys
pub mod Fragment
pub mod Segment
pub mod SegmentSet
pub mod Coalescer
pub mod Buffers
pub mod Fsync
pub mod Handle
pub mod Node
pub mod Mover
pub mod Errors
pub mod Kv
pub mod Index
pub mod Store
pub mod Fuse
pub mod Sizes
