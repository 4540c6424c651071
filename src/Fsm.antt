-- ===== src/Fsm.antt =====
-- The FSM side of raft_c_if.cc: the thread that takes calls from the FSM queue and hands them to the
-- client's state machine. `S` is what the client's machine keeps between its callbacks.
pub mod Answers
pub mod Unanswered
pub mod Mixed
pub mod Keeps
use libraft.Prelude.{
  ℕ, Bool, true, false, not, List, [], ◌∷◌, Option, none, some, update, ◌==◌, if◌then◌else◌,
}
use libraft.Text.{codes}
use libraft.Errors.{RaftError, RaftLogType}
use libraft.Call.{CallTag, Args}
use libraft.Timings.{record_at}
use libraft.Slot.{Slot, CallState, reply_err, reply_val}
use libraft.Queue.Blocking
use libraft.Request.{queue_capacity}
use libraft.World.{
  World, Outcome, ret, blocked, raised, aborted, fault, M, pure, ◌>>=◌, ◌>>◌, branch, given, assert,
  slot_at, put_slot,
}
use libraft.Future.{nonzero}

-- The callbacks. `begin_snapshot` may use the library, so it can change the world; `restore`
-- returns an int, zero for success.
pub record RaftFsm (S : Type 0) : Type 0 where
  pub apply : S → ℕ → ℕ → RaftLogType → ℕ → ℕ → S × ℕ
  pub begin_snapshot : S → List ℕ → ℕ → World → S × World
  pub restore : S → List ℕ → S × ℕ

-- `strlen(path) > 0`
abbrev pub nonempty : List ℕ → Bool
nonempty [] = false
nonempty (c ∷ cs) = nonzero c

abbrev pub is_pending : CallState → Bool
is_pending CallState.pending = true
is_pending _ = false

-- A slot stored back after `reply`, which may have failed its assertion.
abbrev pub store_reply : ℕ → Option Slot → M (Unit {0})
store_reply p none w = aborted w
store_reply p (some s) w = put_slot p s w

-- `slot.timings.record(tag)` with the clock of the world.
abbrev pub note : World → List ℕ → Slot → Slot
note w tag s = record s { timings = record_at s.timings tag w.now }

abbrev pub taken_call :
    Blocking.Attempt ((CallTag × ℕ) × Blocking.Queue (CallTag × ℕ)) → M (CallTag × ℕ)
taken_call attempt w = elim attempt [
  | Blocking.Attempt.done (r, q) ↦ ret r (record w { fsm_queue = q })
  | Blocking.Attempt.waits ↦ blocked w
  | Blocking.Attempt.throws_closed ↦ raised w
  | Blocking.Attempt.fault ↦ fault w
]

abbrev pub take_call : M (CallTag × ℕ)
take_call w = taken_call (Blocking.take queue_capacity w.fsm_queue) w

-- Where a worker thread stands that is not serving a call: at the head of its loop, in `take` between
-- the test of `closed` and the mutex, or in the wait of `take`.
pub data Place : Type 0 where
  head past_check waiting : Place

-- The rest of `take` from there, for a thread whose wait is over.
abbrev pub take_from : Place → M (CallTag × ℕ)
take_from Place.head w = take_call w
take_from Place.past_check w = taken_call (Blocking.take_locked queue_capacity w.fsm_queue) w
take_from Place.waiting w = taken_call (Blocking.take_resumed queue_capacity w.fsm_queue) w

module _ {S : Type 0} (address_of : ℕ → ℕ) (fsm : RaftFsm S) where
  -- The slot as it stands when the answer of `apply` is stored.
  abbrev pub applied : World → Slot → Slot
  applied w s =
      note w (codes "FSM command applied")
        (note w (codes "FSM call dispatched") (record s { state = CallState.dispatched }))

  abbrev answer_cmd : ℕ → Slot → S × ℕ → M S
  answer_cmd p s (st, response) w =
      (do store_reply p (reply_val (applied w s) response w.now); pure st) w

  unfoldable pub dispatch_fsm_apply_cmd : ℕ → Slot → S → ℕ → ℕ → RaftLogType → ℕ → ℕ → M S
  dispatch_fsm_apply_cmd p s st index term log_type data_buf data_len = do
    assert (nonzero data_buf)
    answer_cmd p s (fsm.apply st index term log_type (address_of data_buf) data_len)

  -- The log types other than a command are logged, and no more.
  unfoldable pub dispatch_fsm_apply : ℕ → Slot → S → ℕ → ℕ → RaftLogType → ℕ → ℕ → M S
  unfolding dispatch_fsm_apply_cmd
  dispatch_fsm_apply p s st index term RaftLogType.command data_buf data_len =
      dispatch_fsm_apply_cmd p s st index term RaftLogType.command data_buf data_len
  dispatch_fsm_apply p s st index term log_type data_buf data_len = pure st

  abbrev begin : ℕ → List ℕ → S → M S
  begin p path st w = let (st', w') = fsm.begin_snapshot st path p w in ret st' w'

  unfoldable pub dispatch_fsm_snapshot : ℕ → List ℕ → S → M S
  dispatch_fsm_snapshot p path st = do assert (nonempty path); begin p path st

  abbrev pub restored : ℕ → Slot → S × ℕ → M S
  restored p s (st, result) w =
      (do
        store_reply p
            (reply_err s (if result == 0 then RaftError.success else RaftError.other) w.now)
        pure st)
        w

  unfoldable pub dispatch_fsm_restore : ℕ → Slot → List ℕ → S → M S
  dispatch_fsm_restore p s path st = do assert (nonempty path); restored p s (fsm.restore st path)

  -- The casts of a slot by its record's tag: a tag without arguments of its kind is a fault.
  unfoldable pub dispatch : CallTag → ℕ → Slot → Args → S → M S
  unfolding dispatch_fsm_apply dispatch_fsm_snapshot dispatch_fsm_restore
  dispatch CallTag.fsm_apply p s (Args.log_entry index term log_type data_buf data_len) st =
      dispatch_fsm_apply p s st index term log_type data_buf data_len
  dispatch CallTag.fsm_snapshot p s (Args.filename path) st = dispatch_fsm_snapshot p path st
  dispatch CallTag.fsm_restore p s (Args.filename path) st = dispatch_fsm_restore p s path st
  dispatch CallTag.fsm_apply p s args st = λ w. fault w
  dispatch CallTag.fsm_snapshot p s args st = λ w. fault w
  dispatch CallTag.fsm_restore p s args st = λ w. fault w
  dispatch tag p s args st = λ w. aborted w

  -- Under the slot's mutex, which a snapshot gives up before its callback.
  abbrev pub received : CallTag → ℕ → S → Slot → M S
  received tag p st s = do put_slot p s; assert (is_pending s.state); dispatch tag p s s.args st

  abbrev pub receive : CallTag → ℕ → S → Slot → M S
  receive tag p st s w = received tag p st (note w (codes "FSM call received") s) w

  unfoldable pub fsm_worker_step : S → M S
  unfolding dispatch
  fsm_worker_step st = do
    r ← take_call
    s ← slot_at r.1
    branch s.held (λ w. blocked w) (receive r.0 r.1 st s)

  -- The same round, for a thread that stands at `place`.
  unfoldable pub step_from : Place → S → M S
  unfolding dispatch
  step_from place st = do
    r ← take_from place
    s ← slot_at r.1
    branch s.held (λ w. blocked w) (receive r.0 r.1 st s)

  -- The loop of `run_fsm_worker` for a number of rounds; the exception of a closed queue ends it.
  unfoldable pub run_fsm_worker : ℕ → S → M S
  unfolding fsm_worker_step
  run_fsm_worker ℕ.zero st w = ret st w
  run_fsm_worker (ℕ.suc n) st w = elim (fsm_worker_step st w) [
    | ret st' w' ↦ run_fsm_worker n st' w'
    | raised w' ↦ ret st w'
    | blocked w' ↦ blocked w'
    | aborted w' ↦ aborted w'
    | fault w' ↦ fault w'
  ]

  -- The rest of the loop for a thread that stands at `place`.
  unfoldable pub fsm_worker_from : Place → ℕ → S → M S
  unfolding step_from run_fsm_worker
  fsm_worker_from place rounds st w = elim (step_from place st w) [
    | ret st' w' ↦ run_fsm_worker rounds st' w'
    | raised w' ↦ ret st w'
    | blocked w' ↦ blocked w'
    | aborted w' ↦ aborted w'
    | fault w' ↦ fault w'
  ]
