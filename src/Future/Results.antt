-- ===== src/Future/Results.antt =====
-- What the ways to read a call's result say of its error.
use libraft.Prelude.{ℕ, ◌≡◌, ◌≢◌, true, false, none, some, arith, update, ◌==◌, if◌then◌else◌}
use libraft.Text.{codes}
use libraft.Errors.{RaftError}
use libraft.Call.{has_ret}
use libraft.Timings.{record_at}
use libraft.Slot.{Slot, ClientState, is_terminal, is_success}
use libraft.World.{World, ret, in_shm_bounds}
use libraft.Future.{ready, future_get, raft_future_wait}

pub ==_false : {p : ℕ} → p ≢ 0 → (p == 0) ≡ false
==_false nz = ground arith

-- The slot after a wait.
abbrev pub seen : World → Slot → Slot
seen w s = record s {
  client_state = ClientState.observed;
  timings = record_at s.timings (codes "result received") w.now;
}

abbrev pub seen_in : World → ℕ → Slot → World
seen_in w p s = record w { slots = update w.slots p (some (seen w s)) }

-- A call that is open when its result is asked for: `future_get` waits, the call counts as observed,
-- and what the others answered comes back, an error without a value.
pub future_get_open :
    (env : ℕ → World → World) (p : ℕ) (w : World) (s t : Slot)
    → p ≢ 0
    → in_shm_bounds w p ≡ true
    → w.slots p ≡ some s
    → is_terminal s.state ≡ false
    → (env p w).slots p ≡ some t
    → ready t ≡ true
    → has_ret t.call ≡ true
    → future_get env p true w
      ≡ ret (t.error, if is_success t.error then some t.retval else none) (seen_in (env p w) p t)
unfolding future_get
future_get_open env p w s t nz inb e pending e' r h = ground (arith, ==_false nz)

-- A call that was answered, or failed to be sent, before its result is asked for: `future_get`
-- reports success and the return value whatever error the call holds, and leaves it unobserved,
-- while a wait for the same call reports the error.
pub future_get_terminal :
    (env : ℕ → World → World) (p : ℕ) (w : World) (s : Slot)
    → p ≢ 0
    → in_shm_bounds w p ≡ true
    → w.slots p ≡ some s
    → ready s ≡ true
    → has_ret s.call ≡ true
    → (future_get env p true w ≡ ret (RaftError.success, some s.retval) w)
      × (raft_future_wait env p w ≡ ret s.error (seen_in w p s))
unfolding future_get
future_get_terminal env p w s nz inb e r h =
    (ground (arith, ==_false nz), ground (arith, ==_false nz))
