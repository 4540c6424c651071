-- ===== src/Snapshots.antt =====
-- The snapshot thread of raft_c_if.cc: the jobs that the client's state machine hands over, and how
-- each is run and reported.
pub mod Reports
pub mod Order
use libraft.Prelude.{
  ℕ, Bool, true, false, not, ◌&&◌, ◌==◌, List, Option, none, some, update, if◌then◌else◌,
}
use libraft.Errors.{RaftError}
use libraft.Call.{Args}
use libraft.Slot.{Slot, reply_err}
use libraft.Queue.Deque
use libraft.Queue.Deque.{Deque}
use libraft.World.{
  World, Outcome, ret, blocked, raised, aborted, fault, M, pure, ◌>>=◌, ◌>>◌, branch, given, assert,
  slot_at, put_slot,
}
use libraft.Fsm.{store_reply}
use libraft.Future.{nonzero}

-- `func` is the address of the client's function, which gets `handle`.
pub record SnapshotJob : Type 0 where
  pub slot : ℕ
  pub handle : ℕ
  pub func : ℕ

-- What the C library and the client's function do: `fopen` for writing, which gives a stream unless
-- it fails, the function on the handle and the stream, and `fclose`.
pub record Sinks : Type 0 where
  pub fopen : List ℕ → World → Option ℕ
  pub call : ℕ → ℕ → ℕ → World → ℕ × World
  pub fclose : ℕ → World → ℕ

-- `snapshot_queue` and whether `snapshot_worker` is a thread.
pub record Worker : Type 0 where
  pub snapshot_queue : Deque SnapshotJob
  pub joinable : Bool

abbrev handed : Worker → Deque.Attempt (Deque SnapshotJob) → M Worker
handed k (Deque.Attempt.done d) w = ret (record k { snapshot_queue = d }) w
handed k Deque.Attempt.waits w = blocked w
handed k Deque.Attempt.throws_closed w = raised w

unfoldable pub raft_fsm_take_snapshot : ℕ → ℕ → ℕ → Worker → M Worker
raft_fsm_take_snapshot req h f k = do
  assert (nonzero req)
  assert (nonzero h)
  assert (nonzero f)
  handed (record k { joinable = true })
      (Deque.put k.snapshot_queue (record { slot = req; handle = h; func = f }))

-- A held mutex is waited for.
unfoldable pub raft_fsm_snapshot_complete : ℕ → Bool → M (Unit {0})
raft_fsm_snapshot_complete p success = do
  s ← slot_at p
  branch s.held (λ w. blocked w)
      (λ w.
        store_reply p (reply_err s (if success then RaftError.success else RaftError.other) w.now)
          w)

module _ (sinks : Sinks) where
  abbrev write_to : SnapshotJob → ℕ → M Bool
  write_to job sink w =
      let (rc, w') = sinks.call job.func job.handle sink w in
      ret (rc == 0 && sinks.fclose sink w' == 0) w'

  abbrev write_file : SnapshotJob → List ℕ → M Bool
  write_file job path w = given (sinks.fopen path w) (write_to job) (pure false) w

  abbrev path_of : Args → M (List ℕ)
  path_of (Args.filename path) w = ret path w
  path_of _ w = fault w

  unfoldable pub run_snapshot_job : SnapshotJob → M (Unit {0})
  unfolding raft_fsm_snapshot_complete
  run_snapshot_job job = do
    s ← slot_at job.slot
    path ← path_of s.args
    success ← write_file job path
    raft_fsm_snapshot_complete job.slot success

  -- The loop for a number of rounds; the exception of a closed queue ends it.
  unfoldable pub run_snapshot_worker : ℕ → Worker → M Worker
  unfolding run_snapshot_job
  run_snapshot_worker ℕ.zero k w = ret k w
  run_snapshot_worker (ℕ.suc n) k w = elim (Deque.take k.snapshot_queue) [
    | Deque.Attempt.waits ↦ blocked w
    | Deque.Attempt.throws_closed ↦ ret k w
    | Deque.Attempt.done (job, d) ↦
        (do run_snapshot_job job; run_snapshot_worker n (record k { snapshot_queue = d })) w
  ]
