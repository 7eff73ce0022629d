-- ===== src/Lib.antt =====
-- A verification library for binsort, which sorts the files of a directory by binary similarity.
--
-- The program. main.c reads the command line. binsort.c scans a directory, lets workers hash its files and
-- numbers the hashes. simhash.c makes a shingleprint of each file: it hashes every run of 8 bytes and
-- keeps the 128 smallest distinct hashes, in a heap whose top is the next to go and in a hash table that
-- says what is in the heap. binsort.c deals the rows of a matrix of distances out to the workers, who
-- compare all prints, and then lets them improve the order of the files: each draws two positions
-- (random_get, on the generator of tinymt32.c), chooses the range between them or the rest of the array,
-- and reverses it in place if that makes the way through the files shorter (getdelta), or not much
-- longer. A list of ranges under a lock keeps workers off each other's files. At the end the way is cut
-- open at its farthest pair and printed. Messages go through the ports of xpthread.c.
--
-- The files.
--   Base: shared helpers. Tests on numbers, arrays as functions with the count of a value, lists, integers,
--     masks and digitwise operations.
--   Main: parseargs and main of main.c.
--   Lists: InitList to Remove, binsort_freedir and binsort_freehashes of binsort.c, on a store of words.
--   Simhash/Heap: heap_reset to heap_insert of simhash.c, and the loop that drains the heap.
--   Simhash/Table: next_pow2 to hash_delete of simhash.c, open addressing with deleted slots and a
--     stop-and-copy garbage collection.
--   Simhash/Crc: hash_crc32 of simhash.c on the ring buffer that a file is read through.
--   Simhash/Global: crc_insert to simhash_file of simhash.c, on `struct simhash_global`.
--   Simhash/Score: hashinfo_score and simhash_compare of simhash.c.
--   Simhash/Storage: simhash_write and simhash_read of simhash.c.
--   Binsort/Scan: dirlist_scan of binsort.c.
--   Binsort/Hashing: binsort_worker_hash of binsort.c, and simhash_get and simhash_create of simhash.c.
--   Binsort/Genhashes: binsort_genhashes of binsort.c.
--   Binsort/Distances: binsort_worker_calcdist of binsort.c.
--   Binsort/Gendistances: binsort_gendistances of binsort.c.
--   Binsort/Order: getdist, getdelta, and the choice and reversal of a range in
--     binsort_worker_optimize of binsort.c.
--   Binsort/Ranges: the list of ranges under way in binsort_worker_optimize.
--   Binsort/Optimise: binsort_worker_optimize as steps of any number of workers on what they share.
--   Binsort/Genorder: binsort_genorder of binsort.c around those steps.
--   Binsort/Run: binsort_run of binsort.c, which joins these parts.
--   Binsort/Workers: binsort_create, binsort_init, binsort_initworkers, binsort_freeworkers and binsort_free
--     of binsort.c, on the calls that end a thread.
--   Binsort/Serve: binsort_worker of binsort.c, on the ports of Xpthread/Port.
--   Binsort/Random: random_init and random_get of binsort.c.
--   Binsort/Args: GetTag and the arguments of binsort_init of binsort.c.
--   Xpthread/Queue, Xpthread/Port: the queues and message ports of xpthread.c.
--   Xpthread/Thread: the life of a thread of xpthread.c, with references to it and xp_destroythread.
--   Xpthread/Time, Xpthread/Signal: the times and signals of xpthread.c.
--   Tinymt: tinymt32.c and tinymt32.h.
-- In each directory the module that it is named after holds the definitions, and the modules in it
-- the theorems. The modules called Tests and Sample hold concrete inputs.
--
-- Conventions. An `int` that stays small is a number, a `uint32_t` is one with the wrap written out, and an
-- argument of binsort_init is cut to 32 bits where it becomes an `int`.
-- An array is a function from indices, and what malloc returns is an argument, none for the null
-- pointer. The result 0 or NULL, and abort() or a failed assertion, are values (Option in a
-- component, `Run` over the whole of simhash.c). A linked list is the sequence of its nodes, but in Lists
-- and Xpthread/Queue, where it is its links in a store.
--
-- No floating point is computed: hashinfo_score gives the two integers that it divides, the conversion of a
-- score to a byte and the whole square root are parameters, and the threshold of the optimisation is
-- any test on the change of the distance.
--
-- Threads. What workers do with a lock held is one step, and so is one exchange of two files; theorems hold
-- for every sequence of such steps, and of messages and replies.
--
-- Fuel. The loops of downheap, upheap and get_hashinfo have the number of features, those of the table
-- its size, the loop of hash_crc32 the size of the buffer, next_pow2 its argument, the loop of
-- random_init the range, and hashinfo_score the sum of both sizes; each loop makes at most that many
-- rounds. random_get has no bound of its own: its theorem is for the first draw that is in range. The scan
-- has the depth of its recursion, which ends unless a directory is below itself, and a loop that frees a
-- list one round more than the list has nodes.
--
-- Not modelled: the number of rounds of the optimisation and its threshold in floating point, waiting and
-- the display of progress, the errors of binsort_run, memory that is given back, the
-- errors of xp_createthread, and the names, mutexes and shared locks of xpthread.c.
pub mod Base
pub mod Main
pub mod Lists
pub mod Simhash
pub mod Binsort
pub mod Tinymt
pub mod Xpthread
