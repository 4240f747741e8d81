-- ===== src/Lib.antt =====
-- comeback is a backup program: it saves a directory hierarchy as encrypted blobs in a bucket,
-- named by their SHA-1 scores, and restores, mounts, verifies and collects them. Its core is
-- modelled here.
--
-- The parts and how they interact. internal/dag/visit.go traverses a graph in parallel: resolvers
-- find the dependencies of nodes, visitors handle the nodes whose dependencies are done; saving,
-- restoring and verifying are such traversals. internal/blob is a tower of stores: one that
-- encrypts, one that checks scores, one that skips scores that exist, one that writes to the
-- bucket. internal/repr turns directory listings and file contents into the bytes of blobs.
-- internal/save, internal/restore and internal/verify use the three, internal/comebackfs shows
-- what they have saved, and internal/registry keeps the list of backups in the same bucket.
-- verify.go logs what has been verified, and gc.go moves out of the way what the log does not
-- name.
--
-- The files. Prelude has the shared helpers: Prelude/Go the results, errors and byte strings of
-- Go, Prelude/Int its counters, Prelude/Effects calls that change a state outside of the program,
-- Prelude/Lists, Prelude/Counts and Prelude/Tests what is said of lists and Boolean tests.
--
-- Dag is internal/dag/visit.go. Dag/State has `visitState` and the updates under its lock
-- (`addNodes`, `reinsert`, and the parts of `resolveOne` and `visitOne` that run under `update`);
-- Dag/System has the workers, as steps between the points where the lock is free, for any number
-- of resolvers and visitors, any resolver and visitor that may answer or fail at any time, and any
-- order. Dag/Invariant and Dag/Running have the invariant and that each update and each step keeps
-- it; Dag/Trace, Dag/Reachable, Dag/Checks, Dag/Progress, Dag/Known, Dag/Outcome and Dag/Cycles
-- have what follows for every reachable state and for runs that have ended.
--
-- Blob is internal/blob: Blob/Hex and Blob/Score for score.go, Blob/Store for store.go,
-- checking.go, encrypting.go and existing_scores_store.go, Blob/Gcs, Blob/ObjectRecord and
-- Blob/Listing for gcs_store.go, Blob/Stack for `newBlobStore` of internal/restore/restore.go.
-- Blob/Keeping is the interface that clients of a store use, and Blob/Stack/Kept fills it.
-- Util/StringSet is internal/util/string_set.go.
--
-- Repr is internal/repr: Repr/Info for internal/fs/file_info.go and the messages of
-- internal/repr/proto/comeback.pb.go, Repr/Convert and Repr/Marshal for marshal.go and
-- unmarshal.go. Save is internal/save/visitor.go with internal/save/score_map.go: Save/File has
-- `saveFile`, Save/Dir `saveDir`, Save/Visitor `setScores` and `Visit`, Save/Convert
-- `convertFileInfo` of internal/fs/convert_file_info.go, Save/Converted and Save/Permissions what
-- a converted entry has and the mode that is restored from it, and Save/Chunks, Save/Loads,
-- Save/Listings and Save/Caching what is proved of them. Save/Semaphore is
-- internal/save/semaphore.go with `newBlobStore` of internal/save/save.go, and Save/Balanced
-- compares it with Blob/Stack; Save/Resolver and Save/Resolved are for
-- internal/save/dependency_resolver.go, and Save/Root `findRootScore`. Restore/File is
-- `writeFileContents`, Restore/Mode `syscallMode` and Restore/Visitor `Visit` of
-- internal/restore/visitor.go, with Restore/Visited for what there is after it, Restore/Resolver
-- is internal/restore/dependency_resolver.go, and Restore/Saved and Restore/Listed relate saving
-- and restoring. Verify is internal/verify: Verify/Record and Verify/RecordText for record.go,
-- Verify/Resolver and Verify/Certified for dependency_resolver.go and visitor.go, Verify/Whole for
-- verify.go, where the calls that have succeeded in a run of Dag/System are those of the resolver
-- and the visitor. Verify/Log is the log of the command in verify.go and the input of that in
-- gc.go: `parseVerifyOutput`, `verifyImpl`, `parseKnownStructure` and `parseGCInput`;
-- Verify/Logged, Verify/Unterminated and Verify/Reused have what is read from a log that was
-- written. Verify/Scores is `listAllScores`, and State is state.go, with State/Existing and
-- State/Listed for the scores that the state knows and State/Saved for `saveStateStruct`,
-- `SaveState` and `LoadState` of internal/state/state.go. Modules named Tests and Sample evaluate
-- the definitions on small inputs.
--
-- Gc is the pipeline of gc.go: `filterToGarbage`, `cloneGarbage` and `deleteObjects` as steps on
-- what is in the channels and in the workers' hands; Gc/Invariant, Gc/Steps and Gc/Safety have its
-- invariant. Crypto is internal/crypto. Registry is internal/registry/gcs.go: Registry/Jobs for
-- the backups, Registry/Marker for `newGCSRegistry`, Registry/Claimed for a bucket that was
-- claimed.
--
-- Comebackfs is internal/comebackfs: its inodes, handles and state, Comebackfs/Dir for
-- dir_inode.go, Comebackfs/Handle for file_handle.go, and Comebackfs/Server for the operations of
-- fs.go. Comebackfs/Checks and Comebackfs/Serving have the invariants, Comebackfs/References and
-- Comebackfs/Refinement the lookup counts against what the kernel holds, Comebackfs/Contents and
-- Comebackfs/Listing what is read of a backup.
--
-- Parameters, with what is asked of them as hypotheses: the bucket, the checksums, the hash
-- function (twenty bytes of output), the crypter, encoding/gob, the time format, the protocol
-- buffer encoding, base64, random bytes, AES-SIV and PBKDF2, WriteDirent of the fuse library, the
-- score map, regular expressions, path.Join, the system's entry of a file and the registries of
-- users and groups, the file system and its calls, the state of the context, and the outcome of
-- acquiring a semaphore.
--
-- Bounds and fuel. The loop of `saveFile` runs on fuel; more fuel than the file has bytes is
-- enough when the chunk size is not zero. The counters of internal/dag/visit.go are 64-bit numbers
-- that count nodes and workers, and are unbounded here, as are the seconds of a time and the
-- lookup counts and handles of internal/comebackfs. A CRC32C is read back as a number of 32 bits.
--
-- Not modelled: logging; the order in which the listings of objects in gcs_store.go arrive; the
-- locks of internal/comebackfs within an operation, so that its operations follow one another; the
-- system calls that restoring makes, which are parameters; `Save` and `Restore` as runs of the
-- traversal; the single state of the process in state.go, the cache, the configuration and the
-- commands, which are I/O and wiring; and the vendored libraries.
pub mod Prelude
pub mod Blob
pub mod Dag
pub mod Gc
pub mod Crypto
pub mod Registry
pub mod Comebackfs
pub mod Util
pub mod Verify
pub mod Repr
pub mod Save
pub mod State
pub mod Restore
