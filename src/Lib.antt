-- ===== src/Lib.antt =====
-- libraft: a C++ library that runs HashiCorp's Raft in a child process and lets a client use it
-- through shared memory.
--
-- A client calls the functions of raft_c_if.cc. Each makes a slot in shared memory (raft_shm.h,
-- raft_shm.cc), stamps it, and puts its address into the queue of API calls, an ArrayBlockingQueue
-- of queue.h. The Raft process answers in the slot. For the log's entries it goes the other way: the
-- Raft process puts calls into the queue of FSM calls, which the client's FSM worker takes and hands
-- to the client's state machine. A client waits for a slot, polls it or gives it up; one given up
-- goes to the orphan collector through a Deque of queue.h, which frees it once it is answered.
-- Snapshots are written by a thread of their own, fed by another Deque.
--
-- Files, with the code they model:
--   Prelude           Boolean tests, lists and maps over the native numbers.
--   Queue.Blocking    queue.h, ArrayBlockingQueue. `put_locked` and `take_locked` are the stretches
--                     from the mutex on, `put_resumed` and `take_resumed` those after a wait. Fifo is
--                     the promise to one caller, Refine that it is kept, Threads any interleaving of
--                     any number of threads with the two condition variables, History, Closing
--                     and Wakeups what holds of these.
--   Queue.Deque       queue.h, Deque, in the same way.
--   Queue.Sleepers    threads that sleep counted against those that are woken, for both queues.
--   Text              strncpy into arrays of fixed size, as the code uses it.
--   Errors            raft_defs.h, and raft_err_msg and init_err_msgs of raft_c_if.cc.
--   Call              raft_api_calls.h, raft_fsm_calls.h, the tags and arguments of raft_shm.h, and
--                     tag_name and make_tag_names of raft_shm.cc.
--   Config            config.cc and config.h, and raft_apply_option of raft_c_if.cc.
--   Timings           class Timings of raft_shm.cc.
--   Slot              class BaseSlot: states and replies; Waiting interleaves threads that wait for
--                     a call with the one that answers it.
--   World             what threads and processes share, the monad of operations on it, buffers, and
--                     stats.h. An operation ends with a value, blocked, with the exception
--                     queue_closed, aborted by an assertion, or at a fault.
--   Request           alloc_request_, send_request and make_error_request of raft_shm.h.
--   Future            wait, poll, wait_for, get_ptr and dispose of slots, and the raft_future
--                     functions of raft_c_if.cc.
--   Client            the other functions of raft_c_if.cc that a client calls.
--   Orphans           the collector of raft_shm.cc; Safe interleaves it with clients and with the
--                     threads that serve calls.
--   Ledger            the calls in use, against the counters of stats.h, over any order of requests,
--                     disposals, waits and rounds of the collector and of the FSM worker.
--   Fsm               fsm_worker_step, its dispatch and its handlers, of raft_c_if.cc; Keeps
--                     carries a relation of worlds through a round.
--   Snapshots         the snapshot queue and worker of raft_c_if.cc.
--   Process           watch_raft_proc, report_process_status, build_raft_argv and kill_raft_ of
--                     raft_shm.cc.
--   Printing          raft_print_stats of raft_c_if.cc.
--   Shutdown          raft_cleanup of raft_c_if.cc and shm_cleanup of raft_shm.cc; a join goes on
--                     with the joined thread from where it stands.
--   Startup           raft_init and start_fsm_worker of raft_c_if.cc; shm_init (`attach` in the Raft
--                     process), run_raft, log_init and wait_for_raft of raft_shm.cc; Handed
--                     follows the path of the file to the Raft process, Restart starts the library
--                     again after raft_cleanup.
--   Example           raft_client.c, the example client: Machine is its state machine, Table and
--                     Options its command line, Commands what it sends, Program `main` up to
--                     raft_init and from there to raft_cleanup, Main all of it; Run, Rounds and
--                     Served follow it to its end, Saved a snapshot from its call to a restore.
--   Tests             concrete runs.
--
-- Parameters: what other threads and processes do to shared memory while a client waits (`env`), the
-- addresses that the allocators of Boost pick, the clock, the client's state machine (the
-- example's is modelled), the C library's files, `malloc`, `getopt_long`, system calls and wait
-- statuses, and the JSON tokenizer. The callbacks of a state machine return. Log messages are left out,
-- save for one that the example client sends through a null category, before raft_init.
--
-- Bounds: a CallQueue has the capacity 8 of the source, the lemmas hold for every capacity that fits
-- 32 bits. Counters and lengths wrap at their width. No function needs fuel, save the worker loops
-- and the example's wait for leadership, which run for ever in the source and here for a given number
-- of rounds.
--
-- Not modelled: the per-call allocators, which are Boost's; the tests; the copy of jsmn.
pub mod Prelude
pub mod Queue
pub mod Text
pub mod Errors
pub mod Example
pub mod Call
pub mod Config
pub mod Timings
pub mod Slot
pub mod World
pub mod Request
pub mod Future
pub mod Client
pub mod Ledger
pub mod Orphans
pub mod Fsm
pub mod Snapshots
pub mod Process
pub mod Printing
pub mod Shutdown
pub mod Startup
pub mod Tests
