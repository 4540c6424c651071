-- ===== src/Snapshots/Order.antt =====
-- The snapshot thread runs the jobs that were handed over, in their order.
use libraft.Prelude.{
  ◌≡◌, ◌≢◌, refl, ap, sym, ◌∙◌, arith, true, false, List, [], ◌∷◌, ◌++◌, append_assoc, append-nil,
  length,
}
use libraft.Queue.Deque.{put, take}
use libraft.World.{World, ret, M, pure, bind-ext, bind_assoc, ◌>>=◌, ◌>>◌}
use libraft.Snapshots.{
  SnapshotJob, Sinks, Worker, raft_fsm_take_snapshot, run_snapshot_job, run_snapshot_worker,
}

-- None of its three pointers is null.
abbrev pub IsJob : SnapshotJob → Type 0
IsJob j = (j.slot ≢ 0) × (j.handle ≢ 0) × (j.func ≢ 0)

abbrev pub Jobs : List SnapshotJob → Type 0
Jobs [] = Unit
Jobs (j ∷ js) = IsJob j × Jobs js

-- The jobs handed over one after the other, and run one after the other.
unfoldable pub hand_over : List SnapshotJob → Worker → M Worker
hand_over [] k = pure k
hand_over (j ∷ js) k = do k' ← raft_fsm_take_snapshot j.slot j.handle j.func k; hand_over js k'

unfoldable pub run_all : Sinks → List SnapshotJob → M (Unit {0})
run_all sinks [] = pure tt
run_all sinks (j ∷ js) = do run_snapshot_job sinks j; run_all sinks js

-- The worker's thread runs, with these jobs queued.
abbrev pub queued : List SnapshotJob → Worker
queued js = record { snapshot_queue = record { items = js; closed = false }; joinable = true }

take_snapshot-queued :
    (j : SnapshotJob) (js : List SnapshotJob) (w : World)
    → IsJob j
    → raft_fsm_take_snapshot j.slot j.handle j.func (queued js) w ≡ ret (queued (js ++ j ∷ [])) w
unfolding raft_fsm_take_snapshot put
take_snapshot-queued j js w (s, h, f) = ground arith

hand_over-queued :
    (js ks : List SnapshotJob) (w : World)
    → Jobs ks
    → hand_over ks (queued js) w ≡ ret (queued (js ++ ks)) w
unfolding hand_over
hand_over-queued js [] w v = ap (λ l. ret (queued l) w) (sym (append-nil js))
hand_over-queued js (j ∷ ks) w (v, vs) = ground (
  arith,
  take_snapshot-queued j js w v,
  hand_over-queued (js ++ j ∷ []) ks w vs,
  append_assoc js (j ∷ []) ks,
)

run_worker-run_all :
    (sinks : Sinks) (js : List SnapshotJob) (w : World)
    → run_snapshot_worker sinks (length js) (queued js) w
      ≡ (run_all sinks js >>= λ _. pure (queued [])) w
unfolding run_snapshot_worker run_all take
run_worker-run_all sinks [] w = refl
run_worker-run_all sinks (j ∷ js) w =
    bind-ext (run_snapshot_job sinks j) (λ _. run_snapshot_worker sinks (length js) (queued js))
      (λ _. run_all sinks js >>= λ _. pure (queued [])) (λ r v. run_worker-run_all sinks js v) w
    ∙ sym (bind_assoc (run_snapshot_job sinks j) (λ _. run_all sinks js) (λ _. pure (queued [])) w)

-- Jobs with no null pointer that are handed over while the queue is open and empty, the thread
-- running, are run by the thread in their order, one in each round, whatever each of them does to the
-- world and however one of them ends; if all return, the queue is empty again.
pub hand_over-run_all :
    (sinks : Sinks) (js : List SnapshotJob) (w : World)
    → Jobs js
    → (hand_over js (queued []) >>= run_snapshot_worker sinks (length js)) w
      ≡ (run_all sinks js >>= λ _. pure (queued [])) w
hand_over-run_all sinks js w v =
    ground (arith, hand_over-queued [] js w v, run_worker-run_all sinks js w)
