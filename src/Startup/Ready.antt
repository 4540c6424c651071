-- ===== src/Startup/Ready.antt =====
-- What a successful start sets up.
use libraft.Prelude.{
  ℕ, ◌≡◌, ◌<◌, refl, Bool, true, false, ◌||◌, List, [], ◌∷◌, Option, none, some, arith, length,
  drop, replicate,
}
use libraft.Text.{strncpy, c_str}
use libraft.Text.Copies.{NoNul, strncpy-c_str}
use libraft.Errors.{init_err_msgs}
use libraft.Config.{RaftConfig}
use libraft.Call.{CallTag}
use libraft.Queue.Blocking.Refine.{zeroed, zeroed-Represents}
use libraft.Queue.Blocking.Represents.{Represents}
use libraft.Queue.Deque.{reset}
use libraft.Request.{queue_capacity}
use libraft.World.{World}
use libraft.Shutdown.{Threads}
use libraft.Startup.{
  System, FileState, Forked, Init, Client, constructed, config_of, shm_init, run_raft,
  wait_for_raft, start_fsm_worker, raft_init,
}

c_str-NoNul : (array s : List ℕ) → c_str array ≡ some s → NoNul s
unfolding c_str
c_str-NoNul [] s e = absurd (ground arith)
c_str-NoNul (c ∷ cs) [] e = tt
c_str-NoNul (c ∷ cs) (d ∷ s) e = (ground arith, c_str-NoNul cs s (ground arith))

copied-c_str :
    (array path : List ℕ) (n z : ℕ)
    → c_str array ≡ some path
    → length path < n
    → drop n array ≡ z ∷ []
    → c_str (strncpy array path n) ≡ some path
copied-c_str array path n z e short d =
    ground (arith, strncpy-c_str array path n z (c_str-NoNul array path e) d)

-- A file in the way can be removed, or there is none.
abbrev pub is_free : System → Bool
is_free sys = elim sys.file [
  | FileState.there ↦ sys.unlinks
  | FileState.missing ↦ true
  | FileState.unreadable ↦ false
]

abbrev pub some_true : List Bool → Bool
some_true [] = false
some_true (b ∷ bs) = b || some_true bs

wait_for_raft_lem : (l : List Bool) → some_true l ≡ true → wait_for_raft l ≡ Init.ready tt
unfolding wait_for_raft
wait_for_raft_lem [] e = absurd (ground arith)
wait_for_raft_lem (b ∷ bs) e = ground (arith, wait_for_raft_lem bs)

-- The threads of a client that is running.
abbrev pub all_started : Threads
all_started = record { fsm_worker = true; orphan_gc_thread = true; raft_watcher = true }

abbrev pub none_started : Threads
none_started = record { fsm_worker = false; orphan_gc_thread = false; raft_watcher = false }

pub raft_init-constructed :
    (sys : System) (junk : RaftConfig) (arg : Option RaftConfig) (client : Client) (w : World)
    (path : List ℕ) (pid : ℕ)
    → c_str (config_of junk arg).shm_path ≡ some path
    → is_free sys ≡ true
    → sys.maps ≡ true
    → sys.forked ≡ Forked.parent pid
    → some_true sys.running ≡ true
    → client.threads ≡ none_started
    → raft_init sys junk arg client w
      ≡ Init.ready (
        pid,
        record {
          messages = init_err_msgs;
          snapshots = record client.snapshots {
            snapshot_queue = reset client.snapshots.snapshot_queue;
          };
          threads = all_started;
        },
        constructed sys (config_of junk arg) w,
        record (config_of junk arg) { shm_path = strncpy (config_of junk arg).shm_path path 255 },
      )
unfolding raft_init shm_init run_raft start_fsm_worker
raft_init-constructed sys junk arg client w path pid e free maps forked run idle =
    ground (arith, wait_for_raft_lem sys.running)

-- With a path of less than 255 bytes in its array of 256, a file that is missing or can be removed,
-- and a mapping, a fork and a Raft process that come up, `raft_init` called with no thread started
-- returns the child's pid. The two queues of calls are then empty, well formed and open, and so are
-- those of orphans and of snapshots; no slot is in use; the Raft process finds the path that the
-- client was given; and the three threads are started.
pub raft_init_lem :
    (sys : System) (junk : RaftConfig) (arg : Option RaftConfig) (client : Client) (w : World)
    (path : List ℕ) (pid z : ℕ)
    → c_str (config_of junk arg).shm_path ≡ some path
    → length path < 255
    → drop 255 (config_of junk arg).shm_path ≡ z ∷ []
    → is_free sys ≡ true
    → sys.maps ≡ true
    → sys.forked ≡ Forked.parent pid
    → some_true sys.running ≡ true
    → client.threads ≡ none_started
    → (client' : Client) × (w' : World) × (shared : RaftConfig) × (raft_init sys junk arg client w
        ≡ Init.ready (pid, client', w', shared))
      × Represents queue_capacity w'.api_queue []
      × Represents queue_capacity w'.fsm_queue []
      × (w'.api_queue.closed ≡ false)
      × (w'.fsm_queue.closed ≡ false)
      × (w'.orphaned_calls ≡ record { items = []; closed = false })
      × (client'.snapshots.snapshot_queue ≡ record { items = []; closed = false })
      × ((p : ℕ) → w'.slots p ≡ none)
      × (c_str shared.shm_path ≡ some path)
      × (client'.threads ≡ all_started)
unfolding zeroed reset
raft_init_lem sys junk arg client w path pid z e short d free maps forked run idle = (
  _,
  _,
  _,
  raft_init-constructed sys junk arg client w path pid e free maps forked run idle,
  zeroed-Represents (replicate queue_capacity (CallTag.invalid, 0)) (omega arith) (omega arith),
  zeroed-Represents (replicate queue_capacity (CallTag.invalid, 0)) (omega arith) (omega arith),
  refl,
  refl,
  refl,
  refl,
  λ p. refl,
  copied-c_str (config_of junk arg).shm_path path 255 z e short d,
  refl,
)
