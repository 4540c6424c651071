-- ===== src/Fsm/Unanswered.antt =====
-- The calls of the FSM queue that are not commands.
use libraft.Prelude.{
  ℕ, ◌≡◌, ◌≢◌, refl, Bool, true, false, List, some, arith, update, ◌==◌, if◌then◌else◌,
}
use libraft.Text.{codes}
use libraft.Errors.{RaftError, RaftLogType}
use libraft.Call.{CallTag, Args}
use libraft.Timings.{record_at}
use libraft.Slot.{Slot, CallState, reply_err}
use libraft.Queue.Blocking.{Queue, take, done}
use libraft.Request.{queue_capacity}
use libraft.World.{World, ret}
use libraft.Fsm.{
  RaftFsm, dispatch_fsm_apply, dispatch_fsm_restore, dispatch_fsm_snapshot, dispatch,
  fsm_worker_step, nonempty,
}

abbrev pub stamped : World → Slot → Slot
stamped w s = record s { timings = record_at s.timings (codes "FSM call received") w.now }

-- Whether `dispatch_fsm_apply` hands a log entry to the state machine.
abbrev pub is_command : RaftLogType → Bool
is_command RaftLogType.command = true
is_command _ = false

module _ {S : Type 0} (address_of : ℕ → ℕ) (fsm : RaftFsm S) where
  -- A log entry that is not a command is taken from the queue for good, and that is all: the state
  -- machine is not run, and the call's slot stays pending with no answer, whoever waits for it.
  pub noop_unanswered :
      (w : World) (st : S) (p index term data_buf data_len : ℕ) (t : RaftLogType) (s : Slot)
      (q : Queue (CallTag × ℕ))
      → take queue_capacity w.fsm_queue ≡ done ((CallTag.fsm_apply, p), q)
      → w.slots p ≡ some s
      → s.held ≡ false
      → s.state ≡ CallState.pending
      → s.args ≡ Args.log_entry index term t data_buf data_len
      → is_command t ≡ false
      → fsm_worker_step address_of fsm st w
        ≡ ret st (record w { fsm_queue = q; slots = update w.slots p (some (stamped w s)) })
  unfolding fsm_worker_step dispatch dispatch_fsm_apply
  noop_unanswered w st p index term data_buf data_len t s q f es free new entry nc = ground arith

  -- The world in which `begin_snapshot` is called for the call at `p`.
  abbrev pub snapshot_call : World → ℕ → Slot → Queue (CallTag × ℕ) → World
  snapshot_call w p s q = record w { fsm_queue = q; slots = update w.slots p (some (stamped w s)) }

  -- A snapshot with a path is left to `begin_snapshot`, and its call is pending still.
  pub snapshot_begun :
      (w : World) (st : S) (p : ℕ) (path : List ℕ) (s : Slot) (q : Queue (CallTag × ℕ))
      → take queue_capacity w.fsm_queue ≡ done ((CallTag.fsm_snapshot, p), q)
      → w.slots p ≡ some s
      → s.held ≡ false
      → s.state ≡ CallState.pending
      → s.args ≡ Args.filename path
      → nonempty path ≡ true
      → fsm_worker_step address_of fsm st w
        ≡ ret
            (fsm.begin_snapshot st path p (snapshot_call w p s q)).0
            (fsm.begin_snapshot st path p (snapshot_call w p s q)).1
  unfolding fsm_worker_step dispatch dispatch_fsm_snapshot
  snapshot_begun w st p path s q f es free new entry np = ground arith

  -- The slot of a restore as it is left.
  abbrev finished : World → S → Slot → List ℕ → Slot
  finished w st s path = record s {
    error = if (fsm.restore st path).1 == 0 then RaftError.success else RaftError.other;
    state = if (fsm.restore st path).1 == 0 then CallState.success else CallState.error;
    timings = record_at (stamped w s).timings (codes "reply sent") w.now;
  }

  -- A restore with a path is answered at once: the state machine's `restore` is run on the path, and
  -- the call ends as a success if it returned 0 and with RAFT_E_OTHER if it returned anything else.
  pub restore_answered :
      (w : World) (st : S) (p : ℕ) (path : List ℕ) (s : Slot) (q : Queue (CallTag × ℕ))
      → take queue_capacity w.fsm_queue ≡ done ((CallTag.fsm_restore, p), q)
      → w.slots p ≡ some s
      → s.held ≡ false
      → s.state ≡ CallState.pending
      → s.args ≡ Args.filename path
      → nonempty path ≡ true
      → (w' : World) × (s' : Slot) × (fsm_worker_step address_of fsm st w
          ≡ ret (fsm.restore st path).0 w')
        × (w'.slots p ≡ some s')
        × (s'.state ≡ (if (fsm.restore st path).1 == 0 then CallState.success else CallState.error))
        × (s'.error ≡ (if (fsm.restore st path).1 == 0 then RaftError.success else RaftError.other))
        × (w'.fsm_queue ≡ q)
        × ((k : ℕ) → k ≢ p → w'.slots k ≡ w.slots k)
  unfolding fsm_worker_step dispatch dispatch_fsm_restore reply_err
  restore_answered w st p path s q f es free new entry np = (
    record w {
      fsm_queue = q;
      slots = update (update w.slots p (some (stamped w s))) p (some (finished w st s path));
    },
    finished w st s path,
    ground arith,
    ground arith,
    refl,
    refl,
    refl,
    λ k ne. ground arith,
  )
