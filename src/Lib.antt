-- ===== src/Lib.antt =====
-- elbencho: a storage benchmark that writes and reads files, block devices and objects with many
-- threads on one or several hosts.
--
-- This library models the parts of elbencho that decide which bytes a worker transfers and what they
-- hold, how the workers go through the phases of a benchmark, how the results are counted, and how the
-- rate is limited. The manager (source/workers/WorkerManager.cpp) starts a phase and waits until each
-- worker has counted itself as done. In a phase a worker (source/workers/LocalWorker.cpp) takes its
-- share of the files of the command line or of a path store, builds an offset generator for each range,
-- lets `rwBlockSized` drive the generator block by block, waits on a rate limiter before each block,
-- fills the block or verifies it, asks the journal of its target whether and how it may touch the
-- block, and adds the latency of each block to a histogram that is sent to the coordinator and added
-- up there.
--
-- Files and what they model:
--   Prelude, Prelude/*      library names passed on; Boolean tests, lists over the native numbers, the
--                           arithmetic of uint64_t with its wrap-around, and results with errors.
--   Bits, Bits/*, Pigeonhole
--                           bits of words; a list of distinct small numbers that is long enough holds
--                           each once.
--   Units                   source/toolkits/UnitTk.cpp: numHumanToBytesBinary.
--   Mix, Mix/*              source/toolkits/BlockSizeMix.h and BlockSizeMix.cpp: parse, getNextSize.
--   OffsetGen               source/toolkits/offsetgen/OffsetGenerator.h: the abstract class, as a record
--                           of operations, and the loop of LocalWorker::rwBlockSized over it.
--   OffsetGen/Range         source/toolkits/random/RandAlgoRange.h.
--   OffsetGen/Sequential, Reverse, Random, Aligned, Strided
--                           the generators of OffsetGenerator.h, one file each, with their theorems in
--                           child modules.
--   OffsetGen/FullCoverage, AlignedFullCoverage
--                           source/toolkits/offsetgen/OffsetGenRandomAlignedFullCoverageV2.h: the linear
--                           congruential generator with rejection, and the offset generator on it.
--   LatencyHistogram, LatencyHistogram/*
--                           source/LatencyHistogram.h and LatencyHistogram.cpp: the buckets, addLatency,
--                           operator+=, percentiles, and the encoding for the service protocol.
--   PathStore, PathStore/*  source/PathStore.h and PathStore.cpp: the store of a custom tree and the
--                           sublists that its workers get.
--   RateLimiter, RateLimiter/Bound
--                           source/toolkits/RateLimiter.h.
--   RwMixLimiter, RwMixLimiter/*
--                           source/toolkits/RateLimiterRWMixThreads.h: the threads of a run on the two
--                           shared counters, with the resets of initStart at any time, and the
--                           rounds of one wait.
--   Journal, Journal/Bytes, Cells, Regions, Tiles
--                           source/toolkits/Journal.h and Journal.cpp: the mapped bytes with their
--                           cells, the lock regions, and the content of a block.
--   Journal/BlockIo, BlockIo/*
--                           JournalBlockIO: what one I/O does to its range of blocks, and begin with
--                           all its actions.
--   Journal/Flight, Flight/*
--                           all I/Os of a run in flight on one journal, as steps in any order.
--   Journal/Locks, Locks/*  the threads of a run on the stripe locks: Journal::acquireRange, the guard,
--                           and the waiting rule of LocalWorker::journalBeginIO.
--   Journal/Store, Store/*  source/toolkits/JournalStore.cpp: the journal of each target.
--   S3UploadStore, S3UploadStore/*
--                           source/S3UploadStore.h and S3UploadStore.cpp: the multipart uploads that
--                           workers share, the order of their keys, and the calls of all workers.
--   BlockContent            source/workers/LocalWorker.cpp: the functions that fill and verify an I/O
--                           buffer, for integrity checks, for the journal and for block variance.
--   BlockContent/*          what a buffer holds at each offset, a file that is written and read back,
--                           and the blocks of a journal.
--   FileMode, FileMode/*    source/workers/LocalWorker.cpp: the files of a benchmark of files or block
--                           devices, shared among the workers: fileModeIterateFilesSeq, the ranges
--                           and generators of fileModeIterateFilesRand, and
--                           calcFileIdxAndOffsetStriped.
--   DirMode, DirMode/Entries, Parents
--                           source/workers/LocalWorker.cpp: dirModeIterateDirs and dirModeIterateFiles.
--   DirMode/Totals          source/workers/WorkerManager.cpp: getPhaseNumEntriesAndBytes.
--   Workers                 source/workers/Worker.h, Worker.cpp, WorkersSharedData.h, WorkerManager.cpp,
--                           and source/LiveOps.h: the state that workers and manager share.
--   Workers/Phases          LocalWorker::run and the manager as steps on that state.
--   Workers/Counts, Invariant, Starts, Steps, Idle
--                           the done counters in every order of steps.
--   Workers/Wall, StoneWall, Snapshot
--                           the stonewall statistics, likewise.
--   Tests, Tests/*          the definitions run on concrete inputs, and the theorems used there.
--
-- Conventions. A `uint64_t` is a native number, and its sums, differences and products are add64,
-- sub64 and mul64, which wrap. A call that may throw returns a Result, without the message's text.
-- A method of a C++ object takes its state and returns the new one. A word stands in memory with its
-- lowest byte first, and a buffer is the list of its bytes. Bench IDs are numbers, of which a new one
-- differs from the one before. Random algorithms are a parameter
-- `next`, as are boost::split, std::random_device (a seed argument), the I/O call (the function `io`
-- of rw_block_sized), the clock of the rate limiter and of a phase (the
-- readings are arguments), the fill of a random algorithm, the result of `funcRWBlockSized` for a range
-- of a file or for a file, the results of mkdirat, unlinkat and fstatat, and the arithmetic on
-- doubles of findPercentileBucketIndex.
--
-- Fuel. rw_block_sized runs on as many rounds as it is given, one per transfer; its theorems ask for
-- no more rounds than the range has bytes, since each round transfers at least one. The rejection loop
-- of the congruential generator runs on as many rounds as its modulus: the generator has full period,
-- so it meets a number of the range before. The inner loop of the round-robin sublist runs on the
-- length of the file, since the block size is at least 1. The fill of an integrity check has a round for
-- each byte of the buffer, and the loop over a worker's share of the files one for each of its blocks;
-- each round does at least one. The loops over the bits of a word and over
-- the decades of a latency have 64 and 20 rounds, the most that a 64-bit value needs there, and the
-- loop over the size of a lock region has 64 as well.
--
-- Not modelled: system calls, asynchronous and memory-mapped I/O, S3 requests, HDFS and GPU paths, the file
-- lock, and the calls of the journal and of the buffer functions inside the loop of rwBlockSized (the
-- journal and these functions are modelled by themselves), the files and JSON sidecars of the journal,
-- the CPU utilisation, the starts of phases by the service (those of Coordinator::runBenchmarkPhase are
-- modelled), the workers that drive remote services, the network service, options and output
-- of the program, and logging.
pub mod Prelude
pub mod Bits
pub mod Pigeonhole
pub mod Units
pub mod Mix
pub mod OffsetGen
pub mod LatencyHistogram
pub mod PathStore
pub mod RateLimiter
pub mod RwMixLimiter
pub mod Journal
pub mod S3UploadStore
pub mod BlockContent
pub mod FileMode
pub mod Workers
pub mod DirMode
pub mod Tests
