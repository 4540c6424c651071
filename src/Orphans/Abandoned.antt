-- ===== src/Orphans/Abandoned.antt =====
-- One orphan: when the collector frees it, and with what.
use libraft.Prelude.{
  ℕ, ◌≡◌, ◌≢◌, refl, ap, true, false, [], ◌∷◌, none, some, arith, update, update_self,
  if◌then◌else◌,
}
use libraft.Call.{Call, Args}
use libraft.Slot.{Slot, ClientState, is_success}
use libraft.Queue.Deque.{put, take}
use libraft.World.{World, ret, in_shm_bounds, free_buf}
use libraft.Future.{ready, poll, dispose, raft_future_get_fsm_reply}
use libraft.Future.Results.{==_false}
use libraft.Future.Disposal.{freed, cleaned, cleanup-cleaned, buffer_freed, orphan, consume}
use libraft.Orphans.{try_dispose_orphan, next_orphan, gc_round}

abbrev pub locked : World → ℕ → Slot → World
locked w p s = record w { slots = update w.slots p (some (record s { held = true })) }

-- What freeing an abandoned call leaves.
abbrev pub gone : World → ℕ → Slot → World
gone w p s = freed (cleaned (locked w p s) s.args) p

-- After that the lock of the freed slot is given up.
abbrev pub collected : World → ℕ → Slot → World
collected w p s = record (gone w p s) { stale = p ∷ (gone w p s).stale }

abandoned_lem :
    (p : ℕ) (w : World) (s : Slot)
    → w.slots p ≡ some s
    → s.client_state ≡ ClientState.abandoned
    → dispose p w ≡ ret tt (freed (cleaned w s.args) p)
unfolding dispose
abandoned_lem p w s e c = ground (arith, cleanup-cleaned s.args w)

-- An abandoned call that is answered and not locked is freed, its buffer with it, and the mutex of
-- the freed slot is unlocked afterwards; one that is locked or unanswered is left alone.
pub try_dispose_orphan_lem :
    (p : ℕ) (w : World) (s : Slot)
    → p ≢ 0
    → w.slots p ≡ some s
    → s.client_state ≡ ClientState.abandoned
    → try_dispose_orphan p w ≡ (if ready s then ret true (collected w p s) else ret false w)
unfolding try_dispose_orphan
try_dispose_orphan_lem p w s nz e c =
    ground (
      arith,
      ==_false nz,
      abandoned_lem p (locked w p s) (record s { held = true }) (ground arith) c,
    )

-- What the collector does to the buffer of an Apply call.
gone-freed_buffers :
    (w : World) (p : ℕ) (s : Slot) (buf len timeout : ℕ)
    → s.args ≡ Args.apply_args buf len timeout
    → in_shm_bounds w buf ≡ true
    → (gone w p s).freed_buffers ≡ buf ∷ w.freed_buffers
unfolding in_shm_bounds
gone-freed_buffers w p s buf len timeout a b = ground arith

-- The world after a client has noticed by polling that its Apply call is answered, and has read the
-- reply, freed the command buffer and disposed of the call.
abbrev pub consumed : World → ℕ → Slot → ℕ → World
consumed w p s buf = orphan (buffer_freed w buf) p s

abbrev pub given_up : Slot → Slot
given_up s = record s { client_state = ClientState.abandoned }

consume-consumed :
    (env : ℕ → World → World) (p buf : ℕ) (w : World) (s : Slot)
    → p ≢ 0
    → w.slots p ≡ some s
    → s.call ≡ Call.apply
    → ready s ≡ true
    → s.client_state ≡ ClientState.issued
    → w.orphaned_calls.closed ≡ false
    → consume env p buf w
      ≡ ret (s.error, if is_success s.error then some s.retval else none) (consumed w p s buf)
unfolding raft_future_get_fsm_reply free_buf dispose put
consume-consumed env p buf w s nz e c r i o = ground (arith, ==_false nz)

-- A call of Apply that a client has only polled counts as one that nobody waited for. When the
-- client then reads the reply, frees its command buffer and disposes of the call, as is right after
-- a wait, the collector's next round frees the same buffer again.
pub polled_apply_freed_twice :
    (env : ℕ → World → World) (p buf len timeout : ℕ) (w : World) (s : Slot)
    → p ≢ 0
    → in_shm_bounds w buf ≡ true
    → w.slots p ≡ some s
    → s.call ≡ Call.apply
    → s.args ≡ Args.apply_args buf len timeout
    → ready s ≡ true
    → s.client_state ≡ ClientState.issued
    → w.orphaned_calls ≡ record { items = []; closed = false }
    → (w' w'' : World) × (poll p w ≡ ret true w)
      × (consume env p buf w ≡ ret (s.error, if is_success s.error then some s.retval else none) w')
      × (gc_round [] false false w' ≡ ret [] w'')
      × (w''.freed_buffers ≡ buf ∷ buf ∷ w.freed_buffers)
unfolding poll gc_round next_orphan take in_shm_bounds
polled_apply_freed_twice env p buf len timeout w s nz b e c a r i o = (
  consumed w p s buf,
  collected taken p (given_up s),
  ground arith,
  consume-consumed env p buf w s nz e c r i (ap (λ d. d.closed) o),
  ground (
    arith,
    try_dispose_orphan_lem p taken (given_up s) nz (update_self w.slots p (some (given_up s))) refl,
  ),
  gone-freed_buffers taken p (given_up s) buf len timeout a b,
)
  where
    taken : World
    taken = record (consumed w p s buf) { orphaned_calls = record { items = []; closed = false } }
