-- ===== src/Request.antt =====
-- How a call is made: the slot allocated, stamped and queued. `p` is the address that the slot's
-- allocator picks.
use libraft.Prelude.{ℕ, Bool, true, false, not, some, update}
use libraft.Text.{codes}
use libraft.Errors.{RaftError}
use libraft.Call.{Call, CallTag, Args, tag}
use libraft.Timings.{started, record_at}
use libraft.Slot.{CallState, new_slot, is_success}
use libraft.Queue.Blocking.{Queue, Attempt, put}
use libraft.World.{
  World, ret, blocked, raised, fault, M, pure, ◌>>=◌, ◌>>◌, branch, assert, slot_at, put_slot, inc,
}

-- The capacity of a CallQueue.
abbrev pub queue_capacity : ℕ
queue_capacity = 8

unfoldable pub alloc_request : ℕ → Call → Args → M (Unit {0})
unfolding new_slot
alloc_request p call args w = ret tt (record w {
  slots = update w.slots p (some (new_slot call args));
  stats = record w.stats { call_alloc = inc w.stats.call_alloc };
})

-- The two assignments that make a call an error before anybody answers it.
abbrev pub fail_slot : ℕ → RaftError → M (Unit {0})
fail_slot p err = do s ← slot_at p; put_slot p (record s { error = err; state = CallState.error })

-- `slot->timings = Timings(start_t); slot->timings.record("constructed", built_t);`
abbrev pub stamp : ℕ → M (Unit {0})
stamp p w =
    (do
      s ← slot_at p
      put_slot p (record s {
        timings = record_at (started w.junk (codes "start") w.now) (codes "constructed") w.now;
      }))
      w

-- What follows `queue.put(slot->rec())` in a queue of the scoreboard, chosen by `keep`.
abbrev pub after_put :
    (World → Queue (CallTag × ℕ) → World) → Bool → ℕ → Attempt (Queue (CallTag × ℕ)) → M (Unit {0})
after_put keep throw_ok p (Attempt.done q) w = ret tt (keep w q)
after_put keep throw_ok p Attempt.waits w = blocked w
after_put keep throw_ok p Attempt.throws_closed w =
    branch throw_ok (λ v. raised v) (fail_slot p RaftError.in_shutdown) w
after_put keep throw_ok p Attempt.fault w = fault w

unfoldable pub send_request :
    (World → Queue (CallTag × ℕ))
    → (World → Queue (CallTag × ℕ) → World)
    → Bool
    → ℕ
    → Call
    → Args
    → M ℕ
unfolding alloc_request
send_request queue keep throw_ok p call args = do
  alloc_request p call args
  stamp p
  (λ w. after_put keep throw_ok p (put queue_capacity (queue w) (tag call, p)) w)
  pure p

unfoldable pub send_api_request : ℕ → Call → Args → M ℕ
unfolding send_request
send_api_request = send_request (λ w. w.api_queue) (λ w q. record w { api_queue = q }) false

unfoldable pub send_fsm_request : ℕ → Call → Args → M ℕ
unfolding send_request
send_fsm_request = send_request (λ w. w.fsm_queue) (λ w q. record w { fsm_queue = q }) true

unfoldable pub make_error_request : RaftError → ℕ → Call → Args → M ℕ
unfolding alloc_request
make_error_request err p call args = do
  assert (not (is_success err))
  alloc_request p call args
  fail_slot p err
  pure p
