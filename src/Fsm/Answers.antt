-- ===== src/Fsm/Answers.antt =====
-- What the FSM worker makes of the entries of Raft's log that it finds queued.
use libraft.Prelude.{
  ℕ, ◌≡◌, ◌≢◌, refl, sym, ◌∙◌, false, Option, some, List, [], ◌∷◌, arith, update, length,
}
use libraft.Errors.{RaftError, RaftLogType}
use libraft.Call.{CallTag, Args}
use libraft.Slot.{Slot, CallState, reply_err, reply_val}
use libraft.Text.{codes}
use libraft.Timings.{record_at}
use libraft.Queue.Blocking.{Queue, take, done}
use libraft.Queue.Blocking.Represents.{Represents, fetch-Represents}
use libraft.Request.{queue_capacity}
use libraft.World.{World, ret}
use libraft.Fsm.{
  RaftFsm, dispatch_fsm_apply_cmd, dispatch_fsm_apply, dispatch, fsm_worker_step, run_fsm_worker,
}

-- A command of the log, at the slot `at`.
pub record Command : Type 0 where
  pub at : ℕ
  pub index : ℕ
  pub term : ℕ
  pub data_buf : ℕ
  pub data_len : ℕ

abbrev pub queued : List Command → List (CallTag × ℕ)
queued [] = []
queued (c ∷ cs) = (CallTag.fsm_apply, c.at) ∷ queued cs

-- A slot that the worker can answer the command through.
pub record Asks (s : Slot) (c : Command) : Type 0 where
  pub free : s.held ≡ false
  pub new : s.state ≡ CallState.pending
  pub entry : s.args ≡ Args.log_entry c.index c.term RaftLogType.command c.data_buf c.data_len
  pub has_data : c.data_buf ≢ 0

-- No command of the list is at that slot.
abbrev pub Apart : ℕ → List Command → Type 0
Apart p [] = Unit
Apart p (d ∷ ds) = (p ≢ d.at) × Apart p ds

abbrev pub Asked : (ℕ → Option Slot) → List Command → Type 0
Asked slots [] = Unit
Asked slots (c ∷ cs) =
    ((s : Slot) × (slots c.at ≡ some s) × Asks s c) × Apart c.at cs × Asked slots cs

-- The slot of a command holds a successful answer.
abbrev pub Answered : (ℕ → Option Slot) → Command → ℕ → Type 0
Answered slots c response =
    (s : Slot) × (slots c.at ≡ some s)
    × (s.state ≡ CallState.success)
    × (s.retval ≡ response)
    × (s.error ≡ RaftError.success)

module _ {S : Type 0} (address_of : ℕ → ℕ) (fsm : RaftFsm S) where
  abbrev pub apply_one : S → Command → S × ℕ
  apply_one st c =
      fsm.apply st c.index c.term RaftLogType.command (address_of c.data_buf) c.data_len

  -- The state machine run over the commands, in their order.
  abbrev pub replay : S → List Command → S
  replay st [] = st
  replay st (c ∷ cs) = replay (apply_one st c).0 cs

  abbrev pub AllAnswered : (ℕ → Option Slot) → S → List Command → Type 0
  AllAnswered slots st [] = Unit
  AllAnswered slots st (c ∷ cs) =
      Answered slots c (apply_one st c).1 × AllAnswered slots (apply_one st c).0 cs

  pub take_first :
      (w : World) (call : CallTag × ℕ) (xs : List (CallTag × ℕ))
      → Represents queue_capacity w.fsm_queue (call ∷ xs)
      → w.fsm_queue.closed ≡ false
      → (q : Queue (CallTag × ℕ)) × (take queue_capacity w.fsm_queue ≡ done (call, q))
        × Represents queue_capacity q xs
        × (q.closed ≡ false)
  unfolding take
  take_first w call xs r e =
      let (q, f, r', e') = fetch-Represents queue_capacity w.fsm_queue call xs r in
      (q, ground (arith, r.counted), r', ground arith)

  -- The slot as the worker takes it, and as it leaves it.
  abbrev received_slot : World → Slot → Slot
  received_slot w s = record s { timings = record_at s.timings (codes "FSM call received") w.now }

  abbrev answered_slot : World → Slot → ℕ → Slot
  answered_slot w s response = record s {
    retval = response;
    error = RaftError.success;
    state = CallState.success;
    timings =
        record_at
          (record_at
            (record_at (record_at s.timings (codes "FSM call received") w.now)
              (codes "FSM call dispatched") w.now)
            (codes "FSM command applied") w.now)
          (codes "reply sent") w.now;
  }

  pub command_step :
      (w : World) (st : S) (c : Command) (s : Slot) (xs : List (CallTag × ℕ))
      → Represents queue_capacity w.fsm_queue ((CallTag.fsm_apply, c.at) ∷ xs)
      → w.fsm_queue.closed ≡ false
      → w.slots c.at ≡ some s
      → Asks s c
      → (w' : World) × (fsm_worker_step address_of fsm st w ≡ ret (apply_one st c).0 w')
        × Represents queue_capacity w'.fsm_queue xs
        × (w'.fsm_queue.closed ≡ false)
        × Answered w'.slots c (apply_one st c).1
        × ((p : ℕ) → p ≢ c.at → w'.slots p ≡ w.slots p)
  unfolding fsm_worker_step dispatch dispatch_fsm_apply dispatch_fsm_apply_cmd reply_val reply_err
  command_step w st c s xs r e es a =
      let (q, f, r', e') = take_first w (CallTag.fsm_apply, c.at) xs r e in
      (
        record w {
          fsm_queue = q;
          slots =
              update (update w.slots c.at (some (received_slot w s))) c.at
                (some (answered_slot w s (apply_one st c).1));
        },
        ground (arith, f, es, a.free, a.new, a.entry, a.has_data),
        r',
        e',
        (answered_slot w s (apply_one st c).1, ground arith, refl, refl, refl),
        λ p ne. ground arith,
      )

  -- What a step leaves alone is still asked.
  Asked-kept :
      (f g : ℕ → Option Slot) (p : ℕ) (cs : List Command)
      → ((q : ℕ) → q ≢ p → g q ≡ f q)
      → Apart p cs
      → Asked f cs
      → Asked g cs
  Asked-kept f g p [] h a k = tt
  Asked-kept f g p (c ∷ cs) h a k =
      ((k.0.0, h c.at (λ e. a.0 (sym e)) ∙ k.0.1, k.0.2), k.1, Asked-kept f g p cs h a.1 k.2)

  -- With commands queued at different slots that are pending, the worker's next rounds, one for each
  -- command, all succeed: the state machine ends as the run of `apply` over the commands in the order
  -- of the queue, each slot holds success and the response `apply` gave at that point, the queue is
  -- empty, and every other slot is as it was.
  pub commands_applied :
      (w : World) (st : S) (cs : List Command)
      → Represents queue_capacity w.fsm_queue (queued cs)
      → w.fsm_queue.closed ≡ false
      → Asked w.slots cs
      → (w' : World) × (run_fsm_worker address_of fsm (length cs) st w ≡ ret (replay st cs) w')
        × AllAnswered w'.slots st cs
        × Represents queue_capacity w'.fsm_queue []
        × ((p : ℕ) → Apart p cs → w'.slots p ≡ w.slots p)
  unfolding run_fsm_worker
  commands_applied w st [] r e k = (w, refl, tt, r, λ p a. refl)
  commands_applied w st (c ∷ cs) r e ((s, es, a), ap, k) =
      let (v, f, r', e', done_c, kept) = command_step w st c s (queued cs) r e es a in
      let (w', g, all, r'', kept') =
        commands_applied v (apply_one st c).0 cs r' e'
          (Asked-kept w.slots v.slots c.at cs kept ap k) in
      (
        w',
        ground (arith, f, g),
        ((done_c.0, kept' c.at ap ∙ done_c.1, done_c.2, done_c.3, done_c.4), all),
        r'',
        λ p q. kept' p q.1 ∙ kept p q.0,
      )
