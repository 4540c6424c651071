-- ===== src/Client/Sending.antt =====
-- What sending a request does, and what a client that waits for it learns when it was not sent.
use libraft.Prelude.{ℕ, ◌≡◌, ◌≢◌, refl, true, some, arith, update}
use libraft.Text.{codes}
use libraft.Errors.{RaftError}
use libraft.Call.{Call, Args}
use libraft.Timings.{started, record_at}
use libraft.Slot.{Slot, CallState, new_slot}
use libraft.Queue.Blocking.{put}
use libraft.World.{World, ret, inc, in_shm_bounds}
use libraft.Request.{send_api_request}
use libraft.Future.{raft_future_wait}
use libraft.Future.Results.{seen_in, ==_false}
use libraft.Client.{raft_state, raft_last_contact}

-- The slot of a request as it is queued, and as it is marked when that fails.
abbrev pub fresh : World → Call → Args → Slot
fresh w call args = record (new_slot call args) {
  timings = record_at (started w.junk (codes "start") w.now) (codes "constructed") w.now;
}

abbrev pub refused : Slot → RaftError → Slot
refused s err = record s { error = err; state = CallState.error }

-- On a closed queue every API call comes back to the client as a call that is an error already: it
-- does not block, nothing is queued, and a wait for it returns RAFT_E_IN_SHUTDOWN.
pub closed_api_queue :
    (env : ℕ → World → World) (p : ℕ) (call : Call) (args : Args) (w : World)
    → p ≢ 0
    → in_shm_bounds w p ≡ true
    → w.api_queue.closed ≡ true
    → (w' : World) × (send_api_request p call args w ≡ ret p w')
      × (w'.slots p ≡ some (refused (fresh w call args) RaftError.in_shutdown))
      × (w'.api_queue ≡ w.api_queue)
      × (raft_future_wait env p w'
          ≡ ret RaftError.in_shutdown
              (seen_in w' p (refused (fresh w call args) RaftError.in_shutdown)))
unfolding send_api_request new_slot put raft_future_wait in_shm_bounds
closed_api_queue env p call args w nz b c = (
  record w {
    slots =
        update (update (update w.slots p (some (new_slot call args))) p (some (fresh w call args)))
          p (some (refused (fresh w call args) RaftError.in_shutdown));
    stats = record w.stats { call_alloc = inc w.stats.call_alloc };
  },
  ground arith,
  ground arith,
  refl,
  ground (arith, ==_false nz),
)

-- `raft_last_contact` asks for the state of Raft: in every world and environment it does and returns
-- what `raft_state` does.
pub last_contact-eq-state :
    (env : ℕ → World → World) (p : ℕ) (w : World) → raft_last_contact env p w ≡ raft_state env p w
unfolding raft_last_contact raft_state
last_contact-eq-state env p w = refl
