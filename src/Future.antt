-- ===== src/Future.antt =====
-- The client's view of a call: waiting, polling, reading its result, giving it up. BaseSlot and
-- CallSlot of raft_shm, and the raft_future functions of raft_c_if.cc. `p` or `f` is the address
-- of a slot. `env p w` is what the others have made of the world by the time that a wait for the
-- call at `p` ends, and `address_of` is the segment's `get_address_from_handle`.
pub mod Results
pub mod Disposal
use libraft.Prelude.{
  ℕ, ◌+◌, ◌%◌, ◌^◌, Bool, true, false, not, ◌&&◌, ◌||◌, List, [], ◌∷◌, Option, none, some, update,
  ◌==◌, if◌then◌else◌,
}
use libraft.Text.{codes}
use libraft.Errors.{RaftError}
use libraft.Call.{Call, CallTag, Args, tag, tag_code, has_ret}
use libraft.Timings.{record_at}
use libraft.Slot.{Slot, CallState, ClientState, is_terminal, is_success}
use libraft.Queue.Deque
use libraft.World.{
  World, Outcome, ret, blocked, raised, aborted, fault, M, pure, ◌>>=◌, ◌>>◌, branch, given, assert,
  slot_at, put_slot, in_shm_bounds, free_buf, deallocate,
}

-- `track_orphan`
unfoldable pub track_orphan : ℕ → M (Unit {0})
track_orphan p w = elim (Deque.put w.orphaned_calls p) [
  | Deque.Attempt.done d ↦ ret tt (record w { orphaned_calls = d })
  | Deque.Attempt.waits ↦ blocked w
  | Deque.Attempt.throws_closed ↦ raised w
]

-- Both overloads of `orphan_cleanup`: only the arguments of Apply hold a buffer.
unfoldable pub orphan_cleanup : Args → M (Unit {0})
orphan_cleanup (Args.apply_args cmd_buf cmd_len timeout_ns) w =
    branch (in_shm_bounds w cmd_buf) (free_buf cmd_buf) (pure tt) w
orphan_cleanup _ w = ret tt w

abbrev pub dispose_as : ClientState → Slot → ℕ → M (Unit {0})
dispose_as ClientState.issued s p = do
  put_slot p (record s { client_state = ClientState.abandoned })
  track_orphan p
dispose_as ClientState.observed s p = deallocate p
dispose_as ClientState.abandoned s p = do orphan_cleanup s.args; deallocate p

-- CallSlot::dispose
unfoldable pub dispose : ℕ → M (Unit {0})
unfolding track_orphan orphan_cleanup deallocate
dispose p = do s ← slot_at p; dispose_as s.client_state s p

-- BaseSlot::poll. The lock is tried once.
unfoldable pub poll : ℕ → M Bool
poll p = do s ← slot_at p; pure (not s.held && is_terminal s.state)

-- BaseSlot::wait_for. `locked` says whether the mutex was got in time.
unfoldable pub wait_for : ℕ → Bool → ℕ → M Bool
unfolding poll
wait_for count locked p =
    branch (count == 0) (poll p) (do s ← slot_at p; pure (locked && is_terminal s.state))

-- The functions of the C interface over these three.
abbrev pub raft_future_poll : ℕ → M Bool
raft_future_poll f = poll f

abbrev pub raft_future_wait_for : ℕ → ℕ → Bool → M Bool
raft_future_wait_for f wait_ms locked = wait_for wait_ms locked f

abbrev pub raft_future_dispose : ℕ → M (Unit {0})
raft_future_dispose f = dispose f

-- The result of `value()`.
unfoldable pub value : ℕ → M ℕ
value p = do s ← slot_at p; assert (has_ret s.call); pure s.retval

abbrev pub nonzero : ℕ → Bool
nonzero n = not (n == 0)

unfoldable pub future_tag : ℕ → M CallTag
future_tag f = do assert (nonzero f); s ← slot_at f; pure (tag s.call)

unfoldable pub future_state : ℕ → M CallState
future_state f = do assert (nonzero f); s ← slot_at f; pure s.state

-- must be terminal already
unfoldable pub future_get_f : ℕ → M ℕ
unfolding future_state value
future_get_f f = do state ← future_state f; assert (is_terminal state); value f

-- The predicate of `wait` holds and the mutex is free.
abbrev pub ready : Slot → Bool
ready s = not s.held && is_terminal s.state

abbrev pub finish : ℕ → Slot → M (Unit {0})
finish p s w =
    put_slot p
      (record s {
        client_state = ClientState.observed;
        timings = record_at s.timings (codes "result received") w.now;
      })
      w

-- What is returned, and what is written through the result pointer.
abbrev pub Result : Type 0
Result = RaftError × Option ℕ

module _ (env : ℕ → World → World) where
  abbrev pub when_ready : ℕ → M (Unit {0}) → M (Unit {0})
  when_ready p otherwise = do s ← slot_at p; branch (ready s) (finish p s) otherwise

  abbrev pub others_run : ℕ → M (Unit {0}) → M (Unit {0})
  others_run p m w = m (env p w)

  -- BaseSlot::wait. If the call is not ready the others run first.
  unfoldable pub wait : ℕ → M (Unit {0})
  wait p = when_ready p (others_run p (when_ready p (λ w. blocked w)))

  -- CallSlot::get_ptr; `res` says whether the pointer is not null.
  unfoldable pub get_ptr : ℕ → Bool → M Result
  unfolding wait
  get_ptr p res = do
    s ← slot_at p
    branch (is_terminal s.state) (pure tt) (wait p)
    t ← slot_at p
    branch (has_ret t.call)
        (branch res (pure (t.error, if is_success t.error then some t.retval else none))
          (pure (RaftError.invalid_address, none)))
        (pure (RaftError.invalid_op, none))

  unfoldable pub raft_future_wait : ℕ → M RaftError
  unfolding wait
  raft_future_wait f w =
      branch (f == 0 || not (in_shm_bounds w f)) (pure RaftError.invalid_op)
        (do wait f; s ← slot_at f; pure s.error) w

  unfoldable pub raft_future_get_fsm_reply : ℕ → Bool → M Result
  unfolding future_tag get_ptr
  raft_future_get_fsm_reply f value_ptr = do
    t ← future_tag f
    branch (tag_code t == tag_code (tag Call.apply)) (get_ptr f value_ptr)
        (pure (RaftError.invalid_op, none))

  unfoldable pub future_get : ℕ → Bool → M Result
  unfolding future_state raft_future_wait value
  future_get f res = branch (f == 0) (pure (RaftError.invalid_op, none)) (
      branch (not res) (pure (RaftError.invalid_address, none)) (do
        state ← future_state f
        err ← branch (is_terminal state) (pure RaftError.success) (raft_future_wait f)
        branch (is_success err) (do v ← value f; pure (err, some v)) (pure (err, none))))

  unfoldable pub future_eat : ℕ → Bool → M Result
  unfolding future_get dispose
  future_eat f res = do r ← future_get f res; dispose f; pure r

  unfoldable pub raft_future_get_stats : (ℕ → ℕ) → ℕ → Bool → M Result
  unfolding future_tag future_get
  raft_future_get_stats address_of f res = do
    t ← future_tag f
    branch (not (tag_code t == tag_code (tag Call.stats))) (pure (RaftError.invalid_op, none)) (
        branch (not res) (pure (RaftError.invalid_address, none)) (do
          r ← future_get f true
          given r.1 (λ handle. do assert (nonzero handle); pure (r.0, some (address_of handle)))
              (pure (r.0, none))))
