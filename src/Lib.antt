-- ===== src/Lib.antt =====
-- lzopfs is a FUSE file system that shows compressed files (lzop, gzip, bzip2, pixz, zstd) as their
-- uncompressed contents, with random access. Every compressed file has a list of blocks, each with its
-- place and size in both files. A read finds the block of its position, walks over the blocks that it
-- wants, takes from a cache what is there and has worker threads decompress the rest, and each block is
-- copied to its part of the caller's buffer.
--
-- The parts, and the files that model them:
-- - Lru (LRUMap.h): the map bounded by weight. Lru.Nodes has what it uses of the containers; Links, Back,
--   Room, Touch and Methods compare it with a list of entries without addresses, and Refines any
--   sequence of calls with a bounded list.
-- - Blocks (lzopfs.h, CompressedFile.h, CompressedFile.cc): blocks, the binary search of findBlock,
--   uncompressedSize and checkSizes; Iterators is the heap of the iterators, and Owners, Values, Cases, Uses
--   and Runs compare it with values. Tiles says that blocks follow each other without gaps, Contents
--   that they decompress to the contents of a file.
-- - Read (OpenCompressedFile.cc): the callback that copies a block's part.
-- - Cache (BlockCache.h, BlockCache.cc, OpenCompressedFile.cc): getBlocks, its jobs, and the read. A job
--   is a state machine, and a schedule is a list of events, each a step of one job or a change of the
--   cache by other threads. Coherence, Invariants, Jobs, Schedule, Scanning, Covering, Waiting, Reading
--   and Finishing lead to the theorems on reads.
-- - Handle (FileHandle.h, FileHandle.cc): reads, writes, seeks and numbers in both byte orders, with the
--   system's calls as a parameter; Handle.Regular states what the system does on a regular file, and
--   Handle.Object which object closes a descriptor, and Handle.Lifetime when.
-- - Index (CompressedFile.cc, Bzip2File.cc, GzipFile.cc): the index file beside a compressed file.
-- - Bzip2 (Bzip2File.h, Bzip2File.cc): Magic finds the magic numbers at any bit, Scan looks for
--   boundaries in the chunks of a file, Aligned makes a file of one block, and Bzip2 decompresses and
--   builds the index; Table, Room and Indexing prove what these do.
-- - Gzip (GzipReader.h, GzipReader.cc, GzipFile.h, GzipFile.cc): the readers, with Header for the test of the
--   file type, Saving for the one that goes back, Decode for the one of a block, Marks and Builder for
--   the index; Rewound, Marked and Gapless prove what these do.
-- - Pixz (PixzFile.h, PixzFile.cc): the index at the end of the file, and Blocks for the iterator and the
--   decoding of a block; Words and Padding are about the space between streams.
-- - Lzop (LzopFile.h, LzopFile.cc) and Zstd (ZstdFile.h, ZstdFile.cc): how the list of blocks is built;
--   Zstd.Decode is the decoding of a block, Zstd.Decoded proves that it ends, and Zstd.Opening is about a
--   whole file.
-- - Paths (PathUtils.cc, and destName of every class): names and extensions.
-- - Files (FileList.h, FileList.cc): the list of the files that are shown.
-- - Pool (ThreadPool.h, ThreadPool.cc): the queue of jobs. Pool.Threads is the system of the threads as a
--   step relation: Move is a step of a worker or of the end of a call, Begin the begin of a call or a
--   wake-up without a signal, Reach the states that follow from the constructor. The steps at the mutex
--   and at the condition are what pthread_mutex_lock, pthread_cond_wait, pthread_cond_signal and
--   pthread_cond_broadcast document. The destructor is modelled up to its joins, of which those of
--   entries without a thread are undefined. Mutual, Kept, Wakeups, Stages, Progress and Ending are about it.
-- - Fuse (lzopfs.cc): the handlers of the file system; Options is about the arguments of the program, and
--   Mount is the state of FSData with the open
--   files and the reads in flight, which share the cache; each act is a call of a handler or a step of
--   one read, of its own thread or of one of its jobs. To release or read a handle in a way that has
--   undefined behaviour is a fault there, and Misuse says where it is. Signals, World, Flights, Steps,
--   Handles, Session and Replies lead to the theorems on all runs.
-- - Tests: runs at concrete inputs.
--
-- Sizes and positions are natural numbers, with the wrap-around of 64-bit words written out as `% 2^64`;
-- off_t is signed in the program, and positions are below 2^63 there; what is said of positions up to
-- 2^64 is about the program for those below 2^63. Loops that are not structural
-- run on fuel: makeRoom on the length of its list, the binary search on the count of blocks, and the
-- loops over a file on its length, since each round takes something away or reads some bytes. What runs
-- out of fuel or is undefined in C++ is the error `fault`.
--
-- The decompressors are not part of the repository: `decode` stands for decompressBlock on an open file.
-- libbz2, zlib, liblzma and libzstd are records of the functions that the program calls, parameters of
-- what uses them. How many rounds a loop around the first three takes is theirs to decide, so these
-- loops take any fuel; a loop around libzstd has as fuel what the counts of the bytes that are left and
-- of the calls without progress allow.
-- Not modelled are the options with a value, which FUSE stores. Output for debugging is left out.
pub mod Base
pub mod Lru
pub mod Blocks
pub mod Read
pub mod Cache
pub mod Handle
pub mod Index
pub mod Lzop
pub mod Zstd
pub mod Paths
pub mod Files
pub mod Fuse
pub mod Pool
pub mod Bzip2
pub mod Gzip
pub mod Pixz
mod Tests
