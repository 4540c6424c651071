-- ===== src/Slot/Reply.antt =====
-- The replies of class BaseSlot of raft_shm.h, given once or twice.
use libraft.Prelude.{ℕ, ◌≡◌, if◌then◌else◌, ◌↔◌, refl, true, false, none, some, arith}
use libraft.Errors.{RaftError}
use libraft.Text.{codes}
use libraft.Timings.{record_at}
use libraft.Slot.{Slot, CallState, is_terminal, is_success, reply_err, reply_val}

abbrev answered : Slot → RaftError → ℕ → Slot
answered s err now = record s {
  error = err;
  state = if is_success err then CallState.success else CallState.error;
  timings = record_at s.timings (codes "reply sent") now;
}

-- An open call that is answered, with an error or with a value, becomes terminal: in state Success
-- exactly if the error is RAFT_SUCCESS. A second answer of either kind is refused by an assertion,
-- and what the first one does not concern (call, arguments, client state) stays.
pub reply_once :
    (s : Slot) (err err' : RaftError) (v now later : ℕ)
    → is_terminal s.state ≡ false
    → (t : Slot) × (reply_err s err now ≡ some t)
      × ((t.state ≡ CallState.success) ↔ (err ≡ RaftError.success))
      × (is_terminal t.state ≡ true)
      × (t.error ≡ err)
      × (t.retval ≡ s.retval)
      × (t.call ≡ s.call)
      × (t.args ≡ s.args)
      × (t.client_state ≡ s.client_state)
      × (reply_err t err' later ≡ none)
      × (reply_val t v later ≡ none)
unfolding reply_err reply_val
reply_once s err err' v now later fresh = (
  answered s err now,
  ground arith,
  ground arith,
  ground arith,
  refl,
  refl,
  refl,
  refl,
  refl,
  ground arith,
  ground arith,
)
