-- ===== src/Lib.antt =====
-- bees finds blocks of a btrfs filesystem with the same content and asks the kernel to share them. Its
-- agent scans files block by block; a hash table on disk tells where a block of the same hash was seen;
-- a pair of matching ranges grows from a pair of matching blocks; and libcrucible supplies what several
-- threads share: locks by name, caches, progress points, searches in the kernel's trees.
--
-- This library models the following parts. Paths are from the repository's root.
--   Base          what all models share: tests on numbers, lists over the native numbers, words and
--                 their bits, and a call's outcome. THROW_CHECK (include/crucible/error.h) is
--                 throw_check, an exception is the value throw.
--   HashTable     src/bees-hash.cc and BeesHashTable in src/bees.h. HashTable/Bucket has the part of
--                 each operation that works on a bucket's cells (a pointer is an index), and
--                 HashTable/Table the table with its extents, dirty marks and file; pread and pwrite
--                 are parameters that may fail. Draws of the random position are arguments.
--   Address       BeesAddress (src/bees.h, src/bees-types.cc): a 64-bit word with flag bits, built from
--                 an extent's fields. The flags are Booleans, one for each bit the code tests.
--   FileRange     BeesFileId, BeesFileRange and BeesRangePair (src/bees-types.cc). FileRange/Pair has
--                 BeesRangePair::grow over a World: stat, extents, bytes, block addresses, hashes and the
--                 hash table's answers.
--   Seeker        seek_backward (include/crucible/seeker.h) over its fetch function.
--   Cache         LRUCache (include/crucible/cache.h): a list of nodes, and a map to their numbers; each
--                 call is one step. In insert_item that step has the key lock, under which the second
--                 lookup finds what the first one did, and the call of the function.
--   LockSet       LockSet and its locks (include/crucible/lockset.h), with the calls of all threads as
--                 steps on one system; a waiting call takes no step.
--   MultiLocker   the counters and handles of lib/multilock.cc, with the calls of all threads as steps.
--   Crawl         BeesCrawl and BeesCrawlState (src/bees-roots.cc): the crawl of one subvolume, over a
--                 World with the kernel's search, the transaction number and the clock. Crawl/File has the
--                 task of a file, BeesFileCrawl.
--   Roots         the map of crawls of BeesRoots and the file of their states (src/bees-roots.cc), whose
--                 text is bytes: Roots/Text has split and from_hex (lib/string.cc) with stoull and the
--                 stream's numbers of the standard library; the text of a time (localtime and strftime)
--                 is a parameter. Saving is two steps with those of other threads between, and set_state
--                 holds, releases and marks in a step each.
--   Scan          crawl_one_inode and the scans of the modes LOCKSTEP, INDEPENDENT and SEQUENTIAL
--                 (src/bees-roots.cc) over the map of crawls.
--   Bytes         ByteVector (include/crucible/bytevector.h, lib/bytevector.cc) over a heap of buffers.
--   Progress      ProgressTracker (include/crucible/progress.h).
--   Task          the scheduler of lib/task.cc: tasks in a store, the TaskMaster's queues and its threads.
--                 Each call is one step (it holds the mutexes of its tasks); exec is two, before and
--                 after the task's function. A task has a function and a title, which exec checks. The loop
--                 of a Barrier's release has no lock: what other threads do in it is a parameter.
--                 Task/Queue, Task/State and Task/Master have the operations, Task/Handle the classes Task, Barrier and Exclusion, Task/Places the invariant, and
--                 Task/Steps the calls of all threads in any order.
--
-- How they meet: BeesRangePair::grow asks the hash table for the addresses of a hash and tests them with
-- BeesAddress; LRUCache locks a key through LockSet; a crawl stands at the end of a
-- ProgressTracker, and BeesRoots has the crawls of all subvolumes.
--
-- Numbers are natural numbers. Where the source's word can wrap, the reduction is written out (the
-- extent offset of a compressed block is an int, so 2 ^ 32). Offsets of files are not negative.
--
-- A lock of a mutex that its own thread holds is the outcome resource_deadlock_would_occur.
--
-- Loops. The loops over cells and lists are recursion on them. clear_queue gets as much fuel as there are
-- tasks in the queue and waiting behind tasks, and each round clears one. fetch_extents_harder has fuel,
-- of which three rounds are enough unless an interval runs backwards. seek_backward counts its own rounds, at
-- most 130 as in the source. The loops of BeesRangePair::grow get as many rounds as a range of
-- BLOCK_SIZE_MAX_EXTENT has bytes, and each round that hits makes the ranges longer by a byte at least. The
-- digits of a printed number get fuel above the number, and each one leaves a tenth of it.
--
-- Not modelled: the kernel's interfaces, statistics, logging and printing; the scan
-- modes RECENT and EXTENT, the resolver and the context; double arithmetic of the rate limits and of the load tracker;
-- CityHash, which is another project's code.
mod Base
pub mod HashTable
pub mod Seeker
pub mod Address
pub mod FileRange
pub mod Progress
pub mod LockSet
pub mod Cache
pub mod MultiLocker
pub mod Bytes
pub mod Task
pub mod Crawl
pub mod Roots
pub mod Scan
