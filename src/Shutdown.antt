-- ===== src/Shutdown.antt =====
-- How the library is stopped: raft_cleanup of raft_c_if.cc and shm_cleanup of raft_shm.cc. A join
-- runs the joined thread from where it stands to its end: the FSM worker from a place in its loop, for
-- `rounds` further rounds at most, and the collector with its backlog. The threads that wait in a Deque
-- test `closed` under its mutex, so it does not matter where the snapshot worker and the collector
-- stand; a round that a thread is in the middle of is taken to be over.
pub mod Ends
use libraft.Prelude.{ℕ, Bool, true, false, List, [], ◌∷◌, Option, none, some}
use libraft.Queue.Blocking
use libraft.Queue.Deque
use libraft.World.{
  World, Outcome, ret, blocked, raised, aborted, fault, M, pure, ◌>>=◌, ◌>>◌, branch, assert,
}
use libraft.Fsm.{RaftFsm, Place, fsm_worker_from}
use libraft.Snapshots.{Sinks, Worker, run_snapshot_worker}
use libraft.Orphans.{orphan_gc_from}
use libraft.Process.{Verdict}

-- Which of the library's threads are joinable; the snapshot worker's is in `Worker`.
pub record Threads : Type 0 where
  pub fsm_worker : Bool
  pub orphan_gc_thread : Bool
  pub raft_watcher : Bool

abbrev close_fsm_queue : M (Unit {0})
close_fsm_queue w = ret tt (record w { fsm_queue = Blocking.close w.fsm_queue })

abbrev close_api_queue : M (Unit {0})
close_api_queue w = ret tt (record w { api_queue = Blocking.close w.api_queue })

abbrev close_orphaned_calls : M (Unit {0})
close_orphaned_calls w = ret tt (record w { orphaned_calls = Deque.close w.orphaned_calls })

-- The mapping is dropped, and with it every slot.
abbrev unmap : M (Unit {0})
unmap w = ret tt (record w { slots = λ _. none })

-- The watcher may end the client's process in place of returning.
abbrev join_watcher : Verdict → M (Unit {0})
join_watcher Verdict.returns w = ret tt w
join_watcher Verdict.watches w = blocked w
join_watcher (Verdict.exits code) w = aborted w
join_watcher Verdict.aborts w = aborted w

-- `backlog` is the collector's, `readings` are the clock readings of its rounds from here on, `verdict`
-- is how the watcher ends.
unfoldable pub shm_cleanup : List ℕ → List (Bool × Bool) → Verdict → Threads → M Threads
shm_cleanup backlog readings verdict t = do
  close_api_queue
  close_orphaned_calls
  assert t.orphan_gc_thread
  orphan_gc_from backlog readings
  branch t.raft_watcher (join_watcher verdict) (pure tt)
  unmap
  pure (record t { orphan_gc_thread = false; raft_watcher = false })

abbrev join_snapshots : Sinks → ℕ → Worker → M Worker
join_snapshots sinks rounds k =
    branch k.joinable
      (do k' ← run_snapshot_worker sinks rounds k; pure (record k' { joinable = false })) (pure k)

unfoldable pub raft_cleanup :
    {S : Type 0}
    → (ℕ → ℕ)
    → RaftFsm S
    → Sinks
    → Place
    → ℕ
    → List ℕ
    → List (Bool × Bool)
    → Verdict
    → S
    → Worker
    → Threads
    → M (S × Worker × Threads)
unfolding shm_cleanup
raft_cleanup address_of fsm sinks place rounds backlog readings verdict st k t = do
  close_fsm_queue
  assert t.fsm_worker
  st' ← fsm_worker_from address_of fsm place rounds st
  k' ← join_snapshots sinks rounds (record k { snapshot_queue = Deque.close k.snapshot_queue })
  t' ← shm_cleanup backlog readings verdict (record t { fsm_worker = false })
  pure (st', k', t')
