-- ===== src/Lib.antt =====
-- SwordFS, a client-heavy distributed file system: metadata in Redis, file data in object storage.
-- This library models the parts of its client that decide what a file contains and who may lock it.
--
-- - Status (src/utils/Status.hpp, Status.cpp). A call that fills an output on success is a `Result`:
--   the output, or the code of the error with the output left alone. `ToErrno` is `to_errno`.
-- - Chunk (src/metadata/types/Chunk.hpp, Chunk.cpp). A file is cut into chunks of one size; the
--   conversions between offsets and chunks are functions of the same names.
-- - Chunk.SizePlan (src/metadata/ChunkSizePlan.hpp, ChunkSizePlan.cpp). What a change of the file
--   size detaches and retains, computed with the geometry of Chunk, and what a commit checks again
--   against the state that it finds: `PlanChunkSizeLayout`, `PlanChunkSizeChange`,
--   `ValidateFileSizePrecondition`, `ValidateSizeCommitPlan` and `ValidateFileChunkWrite`.
-- - Slice (src/chunk/slice/SliceRecord.hpp, SliceRecord.cpp). A Slice chunk is a history of records,
--   oldest first; `ResolveRange` overlays them, newest first, on the gaps of the range to read. The
--   ordered map of gaps is the list of its entries, with the operations of std::map that the loop
--   calls.
-- - Lock (src/metadata/LockAuthority.hpp, src/metadata/redis/RedisLockAuthority.cpp). The intervals
--   of one owner and `UpdateRanges` stand in Lock, the holders of an inode and the write of a request
--   in Lock.Holders, the transactions of `SetPosix` and `GetPosix` in Lock.Posix, that of `SetFlock`
--   in Lock.Flock, the bounded retries around them in Lock.Attempts, and the snapshot of `Inspect` in
--   Lock.Inspect. A transaction gets the live holders that `ReadHolders` returns; the Redis commands
--   that commit its write are the interface `LockHash`, which holds their documented effect, and the
--   text of a number, which folly formats, is the interface `Format`. How an attempt's transaction
--   ends is told by an environment. Lock.Lease is the lease of a mount, RedisOwnerLease.cpp beside
--   that file, which answers whether a lock may be granted; its calls are events of a history, and
--   the server's replies are those to the commands that set a key and its expiry.
-- - Acl (src/metadata/PosixAcl.cpp). The class `PosixAcl`: the bytes of a list in Acl.Bytes, the order
--   that `Validate` demands in Acl.Order, and the mode that a list stands for in Acl.Mode. The
--   operations on the two attributes of an inode that hold a list stand in Inode.PosixAcl.
-- - Inode (src/metadata/types/Inode.hpp, Inode.cpp, src/metadata/InodePolicy.hpp, Utils.cpp). An inode
--   and its attributes; Inode.Policy is what its flags forbid, Inode.XAttr its extended attributes,
--   Inode.SetAttr `PrepareSetAttrMutation`, Inode.Create what a new inode inherits, Inode.Stat the
--   views of the attributes as `struct stat` and `struct statx`, and Inode.Scheme `ParseUrlScheme`.
-- - Record (src/metadata/types/BufCodec.cpp, Entry.cpp, Reclaim.cpp, Inode.cpp, Volume.cpp). The bytes
--   of the stored records, that of a volume in Record.Volumes; the words in them, which folly reads
--   and writes, are the interface `Words`, and Record.LittleEndian is an instance of it.
-- - Meta (src/metadata/redis/RedisKvTxn.cpp, RedisKey.cpp, RedisMetaTxn.cpp). One optimistic
--   transaction: an `Action` gets the commands that are queued so far, and fails or returns its
--   output with the queue behind it. The server's answers, the clock and the encoder of cleanup work
--   are a `Host`. Meta.Inodes has the operations on one inode, Meta.Entries and Meta.Rename those on
--   names, Meta.Descent the walk to the root, Meta.Files and Meta.Sizes those on a file's chunks and
--   size, and Meta.Reclaim the removal of inodes without a name. They compose: a size change runs
--   the plan of Chunk.SizePlan and the mutation of Inode.SetAttr on the records of Record. An
--   operation that changes an inode through a pointer returns the changed inode; two parents of a
--   rename that are one object are one in `Parents`.
-- - Engine (src/metadata/redis/RedisMetaImpl.cpp, RedisMetaOps.cpp, RedisMetaClient.cpp,
--   RedisReclaimCoordinator.cpp). The calls of the metadata engine. Engine.Names and Engine.Rename are
--   the transaction bodies of `RedisMetaImpl`, composed of the actions of Meta; Engine.Transact is
--   `RedisMetaClient::Transact` with `Commit`, and Engine.Calls the calls: the checks in front, then
--   the body in `transact`. What the connection and the server do in an attempt is a `Round`; what an
--   EXEC does at the server, whatever the client makes of it, is an `Execution`. The
--   commands outside of a transaction are in Engine.Client, where the answer of the server is a
--   `Reply`, to a scan one for each cursor; the script that reads the attachments of a file's chunks
--   runs on a `StoredFile`. Engine.Reads has the calls that only read, Engine.Volumes the record of the volume,
--   Engine.Scans and Engine.Pending the scans of orphans, reclaims and objects to delete, and
--   Engine.Reclaim the lookup behind a reclaim whose outcome is unknown. Engine.Directory is
--   RedisDirIterator.cpp, the iterator that `OpenDir` hands out.
-- - Prelude: Boolean tests, lists over the native numbers, and sorting.
--
-- Numbers. A `uint32_t` or `uint64_t` is a natural number, and each sum or product that the source
-- computes in that type is reduced modulo 2^32 or 2^64 where it is computed, but for a sum that the
-- check directly before it bounds, and for the number of things that are held in memory. An `off_t`
-- is an integer. Pointers to outputs are not null.
-- Time. An operation reads the clock once, as the argument `now`; the source reads it at each touch.
-- A lease is told each reading, and its durations, in milliseconds, are not negative.
-- Strings are lists of bytes, and a std::map from strings is the list of its entries in order.
-- Fuel. The walk to the root gets one round more than there are stored inodes. The loop over the
-- gaps that a record meets gets one round more than
-- there are gaps; each round consumes one of them for good. The retries of a lock request are
-- three, as in the source; those of a transaction, of a snapshot and of a reclaim are the number that
-- the source is configured with. A scan to the end of a hash consumes a list of replies, and has no
-- result yet where the list ends before the scan does. No other loop needs fuel, but for the digits
-- of a number, which are twenty at most.
-- Sorting. std::sort leaves the order of equal keys open. Where reclaims are sorted it is a parameter,
-- a `SortBy`, which has this contract; elsewhere it is a stable insertion sort, since elements with
-- equal keys are refused there, are the same, or are disjoint nonempty ranges.
--
-- Not modelled: the socket I/O of the Redis client, the pauses between attempts, the object store, the
-- chunks in it and their garbage collection, FUSE callbacks and open files, fibers and thread locks,
-- start-up and configuration. Of the lock authority, the reading of other owners' leases
-- and the text form of stored records are not modelled; of a lease, the thread of its heartbeat is
-- only the renewals that it calls.
pub mod Prelude
pub mod Status
pub mod Chunk
pub mod Slice
pub mod Lock
pub mod Acl
pub mod Inode
pub mod Record
pub mod Meta
pub mod Engine
