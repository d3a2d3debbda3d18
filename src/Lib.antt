-- ===== src/Lib.antt =====
-- Benchamel is a collection of concurrent programs with known bugs and of the clients that drive
-- them. This library models the parts that are the repository's own logic.
--
-- Base holds what all modules share: Boolean tests, lists over the native numbers, runs of a step
-- relation (Base/Steps) and the ways in which a call of a C function ends (Base/Outcome): it
-- returns, the process aborts or exits, or a loop uses up the rounds that the model gives it, which
-- never counts as a return. Libc holds the functions of the C library that the clients call on
-- text, in the C locale. A C string is the list of its bytes before the NUL, and a pointer into it
-- is the part of the list from there on.
--
-- Httrack models concurrency-bugs/httrack-3.43.9/httrack-client.c. Httrack/Buffer has the growable
-- buffer of `append_bytes`, with `size_t` arithmetic modulo 2^64; the allocator (which requests
-- `realloc` and `malloc` grant, and what the new bytes are) is a parameter, and a refused request
-- aborts. The doubling loop takes 65 rounds at most, which Httrack/Buffer/Laws shows to suffice
-- below 2^63 bytes. Httrack/Url and Httrack/Forms have `append_urlencoded`, `append_form_pair` and
-- the `build_*_body` functions, Httrack/Scan has `copy_trimmed` and the `extract_*` functions,
-- Httrack/Transport has `connect_with_retry`, `send_all` and `recv_all`, and Httrack/Http has
-- `http_request` and the pages that the client serves. The operating system's answers to `connect`,
-- `send` and `recv` are inputs, in order. Httrack/Workflow has `run_start_workflow`, each request
-- of it a step on the network, and Httrack/Threads the state under `state_mu` with the asset
-- server, the controller and the cancel workers as interleaved steps, each of which takes the mutex
-- once. The debug output and the sleeps are left out.
--
-- Memcached models concurrency-bugs/memcached-127/client.c: the socket loops, `mc_set`, `mc_incr`,
-- `mc_get`, `worker`, `client_start` and `client_join`. A socket holds the bytes that the server
-- will send, how many each `recv` may give at most, and what each `send` takes. Memcached/Numbers
-- has the reading of numbers by `sscanf` and `atoi`, which stop at the bounds of 64-bit numbers.
--
-- Cherokee models concurrency-bugs/cherokee-0.9.2/cherokee-client.c and, in Cherokee/Bug1,
-- concurrency-bugs/cherokee-bug1/cherokee-client.c, which differs in its request and in its check
-- of the access log. Cherokee/Log and Cherokee/Sscanf have the check, Cherokee/Client the workers
-- as interleaved steps over the atomic operations on `client_failed` and `finished_workers`. The
-- loop over the lines of the log takes as many rounds as the file has bytes, and each round takes a
-- byte.
--
-- Sctbench/Stack models sctbench/concurrent-software-benchmarks/stack_ok.c: the stack, and the two
-- threads as steps, each a round of a loop under the mutex. Sctbench/CircularBuffer and
-- Sctbench/Queue model circular_buffer_ok.c and queue_ok.c of that directory in the same way, the
-- second with accesses outside an array as an error. Sctbench/Progression models
-- arithmetic_prog_ok.c, where a thread that waits on a condition variable is woken by a signal or
-- without one, and Sctbench/Indexer indexer_ok.c, whose threads fill a hash table by `cas`. The N
-- of circular_buffer_ok.c and of arithmetic_prog_ok.c is an argument.
--
-- Sctbench/BoundedBuffer models sctbench/inspect_examples/boundedBuffer.c: every function of its
-- ring buffer as the parts between the points where it blocks, with what the POSIX calls return as
-- arguments and the actions on the mutex and the conditions as a list. Sctbench/BoundedBuffer/Ring
-- has the ring as a queue of items, Refines, Prepare and Teardown what the functions do to it, and
-- Threads the producers and consumers as steps, for any number of them and of rounds, where
-- `pthread_cond_signal` wakes any one of the threads that wait and a wait may also end by itself.
-- The threads call the ring through a record of calls, and Threads/Interface has what they rely on.
-- Sctbench/Bbuf models sctbench/inspect_examples/bbuf.c, whose calls fill the same interface without
-- the counts of the waiting threads.
--
-- Sctbench/Philosopher models sctbench/inspect_examples/philosopher.c in the same way: the forks,
-- and in Philosopher/Table the philosophers, for any number of them and of rounds. Table/Counts has
-- how many philosophers hold a fork or wait for it, and Table/Rest the order of the forks in which
-- everyone takes them.
--
-- Sctbench/ThreadPool models sctbench/inspect_examples/thread-pool.example.c: the functions that
-- start, use and close the pool, where an access outside the array of threads or a wrong `free` has
-- no result, and in ThreadPool/Worker one thread with its entry, the thread that gives it jobs and
-- the one that stops it as steps. The manage thread is not modelled.
--
-- BufRing models buf_ring/buf_ring.h and buf_ring_alloc of buf_ring/buf_ring.c, with the switches
-- BUGFIX1 and BUGFIX2 of buf_ring/test.c as an argument. BufRing/Threads has any number of threads
-- that call `buf_ring_enqueue` and `buf_ring_dequeue_mc` in any order, each shared access a step,
-- over a sequentially consistent memory: `wmb` and `rmb` do nothing, and a thread that waits takes
-- its step when the condition holds. The steps also keep a record of what was put in under which
-- claim of a cell and what was read out for it, which no step reads. `uint32_t` wraps at 2^32, and
-- the theorems about the fixed ring hold until that many (or 2^31) cells have been claimed.
-- BufRing/Queue has the abstract queue, BufRing/Bugs the ring with the first fix alone, and
-- BufRing/Schedule runs the threads in a given order. BufRing/Driver has the program of
-- buf_ring/test.c, whose NTHREADS and LOOPS are arguments; its buffers are never given again, so
-- that a pointer stands for its message. BufRing/Twice has what the ring does without a fix, and
-- BufRing/Refusals when a call fails.
--
-- Not modelled: the servers and tools under concurrency-bugs, which are third-party programs that
-- the repository patches; the copy of libvsync; the C++ programs of convul and sctbench; the other
-- programs of sctbench/concurrent-software-benchmarks and sctbench/inspect_examples; the third-
-- party code that some programs of sctbench bring along; the code of buf_ring under `#if 0` and
-- DEBUG_BUFRING; the build files and scripts.
pub mod Base
pub mod Libc
pub mod Httrack
pub mod Memcached
pub mod Cherokee
pub mod Sctbench
pub mod BufRing
