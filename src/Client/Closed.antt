-- ===== src/Client/Closed.antt =====
-- What a client that asks for a value gets once the API queue is closed.
use libraft.Prelude.{ℕ, ◌≡◌, ◌≢◌, refl, true, false, some, arith, update}
use libraft.Errors.{RaftError}
use libraft.Call.{Call, Args, has_ret}
use libraft.Slot.{Slot, new_slot}
use libraft.Queue.Blocking.{put}
use libraft.World.{World, ret, aborted, inc, in_shm_bounds}
use libraft.Request.{send_api_request}
use libraft.Future.{future_eat}
use libraft.Future.Results.{future_get_terminal}
use libraft.Future.Disposal.{orphan, dispose_lem}
use libraft.Client.{raft_leader, raft_last_index}
use libraft.Client.Sending.{fresh, refused}

-- The slot of a call that was not sent, and the world with it.
abbrev unsent : World → Call → Slot
unsent w call = refused (fresh w call Args.no_args) RaftError.in_shutdown

abbrev with_unsent : World → ℕ → Call → World
with_unsent w p call = record w {
  slots =
      update
        (update (update w.slots p (some (new_slot call Args.no_args))) p
          (some (fresh w call Args.no_args)))
        p (some (unsent w call));
  stats = record w.stats { call_alloc = inc w.stats.call_alloc };
}

send-with_unsent :
    (p : ℕ) (call : Call) (w : World)
    → w.api_queue.closed ≡ true
    → send_api_request p call Args.no_args w ≡ ret p (with_unsent w p call)
unfolding send_api_request new_slot put
send-with_unsent p call w c = ground arith

-- Its value is read as a success, and it is left to the collector.
future_eat-unsent :
    (env : ℕ → World → World) (p : ℕ) (call : Call) (w : World)
    → p ≢ 0
    → in_shm_bounds w p ≡ true
    → w.orphaned_calls.closed ≡ false
    → has_ret call ≡ true
    → future_eat env p true (with_unsent w p call)
      ≡ ret (RaftError.success, some 0) (orphan (with_unsent w p call) p (unsent w call))
unfolding future_eat new_slot in_shm_bounds
future_eat-unsent env p call w nz b o h =
    let e : (with_unsent w p call).slots p ≡ some (unsent w call) = ground arith in
    ground (
      arith,
      future_get_terminal env p (with_unsent w p call) (unsent w call) nz b e refl h,
      dispose_lem p (with_unsent w p call) (unsent w call) e o,
    )

-- Once the API queue is closed, `raft_leader` does not return an error: the call that was not sent
-- passes for a success with a null leader, and an assertion ends the client's process. In the same
-- way `raft_last_index` returns 0, as it does for an empty log. (Both while the orphan queue is open,
-- which takes the call.)
pub closed_leader_aborts :
    (env : ℕ → World → World) (address_of : ℕ → ℕ) (p : ℕ) (w : World)
    → p ≢ 0
    → in_shm_bounds w p ≡ true
    → w.api_queue.closed ≡ true
    → w.orphaned_calls.closed ≡ false
    → (v w' : World) × (raft_leader env address_of p true w ≡ aborted v)
      × (raft_last_index env p w ≡ ret 0 w')
unfolding raft_leader raft_last_index
closed_leader_aborts env address_of p w nz b c o = (
  orphan (with_unsent w p Call.get_leader) p (unsent w Call.get_leader),
  orphan (with_unsent w p Call.last_index) p (unsent w Call.last_index),
  ground (
    arith,
    send-with_unsent p Call.get_leader w c,
    future_eat-unsent env p Call.get_leader w nz b o refl,
  ),
  ground (
    arith,
    send-with_unsent p Call.last_index w c,
    future_eat-unsent env p Call.last_index w nz b o refl,
  ),
)
