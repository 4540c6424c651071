-- ===== src/Future/Disposal.antt =====
-- What disposing of a call gives back, and when.
use libraft.Prelude.{
  ℕ, ◌≡◌, ◌≢◌, refl, ◌∙◌, true, false, [], ◌∷◌, ◌++◌, Option, none, some, arith, update,
  if◌then◌else◌,
}
use libraft.Errors.{RaftError}
use libraft.Call.{Call, Args}
use libraft.Slot.{Slot, ClientState, is_success}
use libraft.Queue.Deque.{put}
use libraft.World.{
  World, inc, ret, in_shm_bounds, M, ◌>>=◌, ◌>>◌, pure, free_buf, deallocate, slot_at,
}
use libraft.Future.{
  ready, dispose, dispose_as, orphan_cleanup, track_orphan, raft_future_wait,
  raft_future_get_fsm_reply,
}
use libraft.Future.Results.{seen_in, ==_false}

-- A call given back to its allocator.
abbrev pub freed : World → ℕ → World
freed w p = record w {
  slots = update w.slots p none;
  freed_slots = p ∷ w.freed_slots;
  stats = record w.stats { call_free = inc w.stats.call_free };
}

-- A call left to the orphan collector.
abbrev pub orphan : World → ℕ → Slot → World
orphan w p s = record w {
  slots = update w.slots p (some (record s { client_state = ClientState.abandoned }));
  orphaned_calls = record w.orphaned_calls { items = w.orphaned_calls.items ++ p ∷ [] };
}

abbrev pub buffer_freed : World → ℕ → World
buffer_freed w buf = record w {
  freed_buffers = buf ∷ w.freed_buffers;
  stats = record w.stats { buffer_free = inc w.stats.buffer_free };
}

-- The command buffer freed, if the call is an Apply whose buffer lies in shared memory.
abbrev pub cleaned : World → Args → World
cleaned w (Args.apply_args buf len timeout) = if in_shm_bounds w buf then buffer_freed w buf else w
cleaned w a = w

abbrev pub disposed : World → ℕ → Slot → ClientState → World
disposed w p s ClientState.issued = orphan w p s
disposed w p s ClientState.observed = freed w p
disposed w p s ClientState.abandoned = freed (cleaned w s.args) p

pub cleanup-cleaned : (a : Args) (w : World) → orphan_cleanup a w ≡ ret tt (cleaned w a)
unfolding orphan_cleanup free_buf
cleanup-cleaned (Args.apply_args buf len timeout) w = ground arith
cleanup-cleaned a w = refl

dispose_as-disposed :
    (p : ℕ) (w : World) (s : Slot) (c : ClientState)
    → w.orphaned_calls.closed ≡ false
    → dispose_as c s p w ≡ ret tt (disposed w p s c)
unfolding deallocate track_orphan put
dispose_as-disposed p w s ClientState.issued e = ground arith
dispose_as-disposed p w s ClientState.observed e = refl
dispose_as-disposed p w s ClientState.abandoned e = ground (arith, cleanup-cleaned s.args w)

-- While the orphan queue is open, disposing of a call does one of three things: a call that nobody
-- has waited for is kept, marked as abandoned and queued for the collector; one whose answer was
-- observed is freed, its arguments untouched; and an abandoned one is freed with its buffer.
pub dispose_lem :
    (p : ℕ) (w : World) (s : Slot)
    → w.slots p ≡ some s
    → w.orphaned_calls.closed ≡ false
    → dispose p w ≡ ret tt (disposed w p s s.client_state)
unfolding dispose
dispose_lem p w s e c =
    let x : dispose p w ≡ dispose_as s.client_state s p w = rw (e, dispose, slot_at, ◌>>=◌) in
    x ∙ dispose_as-disposed p w s s.client_state c

-- What a client does with an Apply call whose answer it has noticed: read the reply, free the
-- command buffer that it allocated, dispose of the call.
abbrev pub consume : (ℕ → World → World) → ℕ → ℕ → M (RaftError × Option ℕ)
consume env p buf = do r ← raft_future_get_fsm_reply env p true; free_buf buf; dispose p; pure r

-- After a wait, consuming frees the call at once and the buffer once.
pub waited_consume :
    (env : ℕ → World → World) (p buf len timeout : ℕ) (w : World) (s : Slot)
    → p ≢ 0
    → in_shm_bounds w p ≡ true
    → w.slots p ≡ some s
    → s.call ≡ Call.apply
    → s.args ≡ Args.apply_args buf len timeout
    → ready s ≡ true
    → (w' : World) × ((raft_future_wait env p >>= λ _. consume env p buf) w
        ≡ ret (s.error, if is_success s.error then some s.retval else none) w')
      × (w'.slots p ≡ none)
      × (w'.freed_slots ≡ p ∷ w.freed_slots)
      × (w'.freed_buffers ≡ buf ∷ w.freed_buffers)
      × (w'.orphaned_calls ≡ w.orphaned_calls)
unfolding raft_future_wait raft_future_get_fsm_reply free_buf dispose
waited_consume env p buf len timeout w s nz inb e c a r = (
  freed (buffer_freed (seen_in w p s) buf) p,
  ground (arith, ==_false nz),
  ground arith,
  refl,
  refl,
  refl,
)
