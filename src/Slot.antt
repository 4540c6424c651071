-- ===== src/Slot.antt =====
-- BaseSlot of raft_shm: the state of one call in shared memory, and how it is answered.
pub mod Reply
pub mod Waiting
pub mod Waiters
use libraft.Prelude.{ℕ, Bool, true, false, List, Option, none, some, if◌then◌else◌}
use libraft.Text.{codes}
use libraft.Errors.{RaftError}
use libraft.Call.{Call, Args}
use libraft.Timings.{Timings, zeroed, record_at}

pub data CallState : Type 0 where
  pending dispatched success error : CallState

pub data ClientState : Type 0 where
  issued observed abandoned : ClientState

abbrev pub is_terminal : CallState → Bool
is_terminal CallState.pending = false
is_terminal CallState.dispatched = false
is_terminal CallState.success = true
is_terminal CallState.error = true

-- `call` is the class CallSlot<Call> that the slot is of, which fixes its tag. `held` says whether
-- another thread or process holds the mutex `owned`.
pub record Slot : Type 0 where
  pub call : Call
  pub args : Args
  pub held : Bool
  pub state : CallState
  pub client_state : ClientState
  pub retval : ℕ
  pub error : RaftError
  pub timings : Timings

-- The constructors of CallSlot and BaseSlot.
unfoldable pub new_slot : Call → Args → Slot
new_slot call args = record {
  call = call;
  args = args;
  held = false;
  state = CallState.pending;
  client_state = ClientState.issued;
  retval = 0;
  error = RaftError.success;
  timings = zeroed;
}

abbrev pub is_success : RaftError → Bool
is_success RaftError.success = true
is_success _ = false

-- `reply(err)` at time `now`; `none` is the failed assertion that the call is open.
unfoldable pub reply_err : Slot → RaftError → ℕ → Option Slot
reply_err s err now =
    if is_terminal s.state
    then none
    else some (record s {
      error = err;
      state = if is_success err then CallState.success else CallState.error;
      timings = record_at s.timings (codes "reply sent") now;
    })

-- `reply(retval)`
unfoldable pub reply_val : Slot → ℕ → ℕ → Option Slot
unfolding reply_err
reply_val s retval now = reply_err (record s { retval = retval }) RaftError.success now
