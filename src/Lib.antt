-- ===== src/Lib.antt =====
-- everarch: models of the C sources of the archive, and theorems about them.
--
-- The archive keeps immutable blobs in bucket files (src/glacier.c) behind a server
-- (src/evr-glacier-storage.c) that speaks a binary protocol (src/glacier-cmd.c). Blobs are named by
-- the hash of their content (src/keys.c). Every part moves bytes with the loops of src/files.c and
-- the cursor of src/basics.h.
--
-- Prelude       native numbers, lists and tests that every module shares.
-- Errors        the result codes of src/errors.h.
-- Bytes         evr_push_*, evr_pull_* of src/basics.h and the 8 bit checksum of src/basics.c.
-- DynMem        the dynamic arrays of src/dyn-mem.c, with the success of malloc as an argument.
-- GlacierCmd    the structures of src/glacier-cmd.h with their parse and format functions.
-- Files         read_n, write_n, pipe_n and dump_n of src/files.c. A file is its bytes and a schedule
--               that says how many bytes each call is granted, or that it fails. The loops from one
--               file into another, or into nothing, are in Files.Pipe.
-- Inode         the tree of inodes of src/fs-inode.c, with the success of each allocation as a
--               schedule.
-- Keys          blob refs, claim refs and their printed form, and the claim ref set, of src/keys.c.
--               Keys.Scan is the conversion of sscanf that they use.
-- Glacier       evr_glacier_append_blob of src/glacier.c with all it calls, over the write context,
--               the bucket directory, and a schedule of failing system calls. Opening a file with
--               O_EXCL fails if it exists. The calls on the bucket are in Glacier, the blobs and the
--               choice of the next bucket in Glacier.WriteBlob. Glacier.Walk is evr_glacier_walk_bucket, Glacier.ReadBlob
--               evr_glacier_read_blob, Glacier.ListBlobs evr_glacier_list_blobs and
--               Glacier.OpenWrite the choice of the bucket in evr_create_glacier_write_ctx. Glacier.Directory
--               is the choice of files in evr_walk_buckets. Glacier.Reindex rebuilds the index
--               database as evr_glacier_reindex does, and Glacier.Check is evr_quick_check_glacier; the
--               hash of libgcrypt is a parameter of both. Glacier.ReadBack puts evr_glacier_append_blob and
--               evr_glacier_read_blob together.
-- ChunkSet      read_into_chunks of src/files.c, over the chunk sets of src/dyn-mem.c.
-- Client        how src/evr-glacier-client.c asks for a blob and reads the answer, over any connection
--               (the record Link).
-- Configp       the parser of configuration files of src/configp.c, over the same files as Files.
-- Exec          actions that may give up, which Server and Client share.
-- Handover      the slot between threads of src/handover.c, with its lock, conditions and waits as
--               steps of any number of threads.
-- Notify        the observers of src/notify.c, over Queue.
-- OpenFiles     the reading of sliced files with a cached slice of src/open-files.c, over Client.
-- Persister     the worker of src/concurrent-glacier.c with its ring of tasks, over any sequence of
--               the calls of clients and the steps of the worker.
-- Queue         the ring buffer between threads of src/queue.c, one call at a time.
-- Server        the worker of a connection in src/evr-glacier-storage.c, from the authentication to the
--               last command, over GlacierCmd, Files and Glacier. What it calls of the persister, of
--               sqlite and of the memory is the record Server.Actions.Store, and Server.Requests has
--               what the worker relies on of it, with the abstract store that its answers implement.
--
-- Loops run on fuel that is the number of bytes asked for, the length of the file or the like, and
-- each theorem on a loop shows that its result is the one of the source, so that the fuel is enough.
-- Where evr_open_bucket fails, the source goes on with the descriptor 1; a read of it is an error in
-- the model, since it has no magic number. sqlite is not modelled: its prepared statements are the record IndexDb, a parameter. Binding a
-- parameter of a statement and taking a free lock do not fail, and numbers bound as an int are taken
-- to be below 2 ^ 31. Logging, profiling and panics are left out. Buffers are lists, so their
-- addresses and the aliasing of them are not modelled. What is not modelled at all: the command line
-- programs, sockets and TLS, FUSE, HTTP, XML and signatures.
pub mod Bytes
pub mod ChunkSet
pub mod Client
pub mod Configp
pub mod DynMem
pub mod Errors
pub mod Exec
pub mod Files
pub mod Glacier
pub mod GlacierCmd
pub mod Handover
pub mod Inode
pub mod Keys
pub mod Notify
pub mod OpenFiles
pub mod Persister
pub mod Prelude
pub mod Queue
pub mod Server
