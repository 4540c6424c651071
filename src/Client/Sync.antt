-- ===== src/Client/Sync.antt =====
-- `raft_apply_sync`, from the command to the end of its call.
use libraft.Prelude.{
  ℕ, ◌+◌, ◌%◌, ◌^◌, ◌≡◌, ◌≢◌, refl, true, false, ◌&&◌, ◌∷◌, none, some, arith, update,
  if◌then◌else◌,
}
use libraft.Errors.{RaftError}
use libraft.Call.{Call, Args}
use libraft.Slot.{Slot, new_slot, is_success, is_terminal}
use libraft.World.{World, ret, inc, in_shm_bounds}
use libraft.Request.{make_error_request}
use libraft.Future.{ready, dispose, raft_future_wait, raft_future_get_fsm_reply, nonzero}
use libraft.Future.Results.{seen_in, ==_false}
use libraft.Future.Disposal.{freed}
use libraft.Client.{raft_apply, raft_apply_sync}
use libraft.Client.Sending.{refused}

-- A command that was sent, and that the others answer while the client waits: the answer's error
-- comes back, with its value if it is a success, and the call has been freed; the command's buffer
-- is left to the client, and nothing else differs from what the others left.
pub sync_answered :
    (env : ℕ → World → World) (p cmd len timeout : ℕ) (w w' : World) (s t : Slot)
    → p ≢ 0
    → raft_apply p cmd len timeout w ≡ ret p w'
    → in_shm_bounds w' p ≡ true
    → w'.slots p ≡ some s
    → is_terminal s.state ≡ false
    → (env p w').slots p ≡ some t
    → ready t ≡ true
    → t.call ≡ Call.apply
    → raft_apply_sync env p cmd len timeout true w
      ≡ ret
          (t.error, if is_success t.error then some t.retval else none)
          (freed (seen_in (env p w') p t) p)
unfolding raft_apply_sync raft_future_wait raft_future_get_fsm_reply dispose
sync_answered env p cmd len timeout w w' s t nz a b e o e' r c = ground (arith, ==_false nz)

-- A null command, or one whose first byte or end is outside shared memory, is not sent: the error
-- is RAFT_E_INVALID_ADDRESS, nothing is queued, and the call that stood for it is freed again.
pub sync_refused :
    (env : ℕ → World → World) (p cmd len timeout : ℕ) (w : World)
    → p ≢ 0
    → in_shm_bounds w p ≡ true
    → (nonzero cmd && in_shm_bounds w cmd && in_shm_bounds w ((cmd + len) % 2 ^ 64)) ≡ false
    → (w' : World) × (raft_apply_sync env p cmd len timeout true w
        ≡ ret (RaftError.invalid_address, none) w')
      × (w'.slots p ≡ none)
      × (w'.freed_slots ≡ p ∷ w.freed_slots)
      × (w'.freed_buffers ≡ w.freed_buffers)
      × (w'.api_queue ≡ w.api_queue)
      × (w'.orphaned_calls ≡ w.orphaned_calls)
unfolding raft_apply_sync raft_apply make_error_request new_slot raft_future_wait
    raft_future_get_fsm_reply dispose in_shm_bounds
sync_refused env p cmd len timeout w nz b c = (
  freed (seen_in sent p slot) p,
  ground (arith, ==_false nz),
  ground arith,
  refl,
  refl,
  refl,
  refl,
)
  where
    slot : Slot
    slot = refused (new_slot Call.apply (Args.apply_args cmd len timeout)) RaftError.invalid_address

    sent : World
    sent = record w {
      slots =
          update (update w.slots p (some (new_slot Call.apply (Args.apply_args cmd len timeout)))) p
            (some slot);
      stats = record w.stats { call_alloc = inc w.stats.call_alloc };
    }
