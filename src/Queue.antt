-- ===== src/Queue.antt =====
-- queue.h: the two queues that the threads and processes of libraft share.
pub mod Blocking
pub mod Deque
pub mod Sleepers
