-- ===== src/Fsm/Mixed.antt =====
-- What the FSM worker makes of a queue that mixes commands, other entries of the log and restores.
use libraft.Prelude.{
  ℕ, ◌≡◌, ◌≢◌, refl, sym, ap, subst, ◌∙◌, false, true, Option, some, List, [], ◌∷◌, arith, update,
  length, ◌==◌, if◌then◌else◌,
}
use libraft.Errors.{RaftError, RaftLogType}
use libraft.Call.{CallTag, Args}
use libraft.Slot.{Slot, CallState}
use libraft.Queue.Blocking.Represents.{Represents}
use libraft.Request.{queue_capacity}
use libraft.World.{World, ret}
use libraft.Fsm.{RaftFsm, fsm_worker_step, run_fsm_worker, nonempty}
use libraft.Fsm.Answers.{Command, Asks, Answered, apply_one, take_first, command_step}
use libraft.Fsm.Unanswered.{is_command, stamped, noop_unanswered, restore_answered}

-- A call of the queue: a command, an entry of another type, or a restore from a file.
pub data Task : Type 0 where
  command : Command → Task
  entry : Command → RaftLogType → Task
  restore : ℕ → List ℕ → Task

abbrev pub at : Task → ℕ
at (command c) = c.at
at (entry c t) = c.at
at (restore p path) = p

abbrev pub queued : List Task → List (CallTag × ℕ)
queued [] = []
queued (command c ∷ ts) = (CallTag.fsm_apply, c.at) ∷ queued ts
queued (entry c t ∷ ts) = (CallTag.fsm_apply, c.at) ∷ queued ts
queued (restore p path ∷ ts) = (CallTag.fsm_restore, p) ∷ queued ts

-- A slot through which the worker gets the task.
abbrev pub Holds : Slot → Task → Type 0
Holds s (command c) = Asks s c
Holds s (entry c t) =
    (s.held ≡ false)
    × (s.state ≡ CallState.pending)
    × (s.args ≡ Args.log_entry c.index c.term t c.data_buf c.data_len)
    × (is_command t ≡ false)
Holds s (restore p path) =
    (s.held ≡ false)
    × (s.state ≡ CallState.pending)
    × (s.args ≡ Args.filename path)
    × (nonempty path ≡ true)

abbrev pub Apart : ℕ → List Task → Type 0
Apart p [] = Unit
Apart p (t ∷ ts) = (p ≢ at t) × Apart p ts

abbrev pub AllHeld : (ℕ → Option Slot) → List Task → Type 0
AllHeld slots [] = Unit
AllHeld slots (t ∷ ts) =
    ((s : Slot) × (slots (at t) ≡ some s) × Holds s t) × Apart (at t) ts × AllHeld slots ts

module _ {S : Type 0} (address_of : ℕ → ℕ) (fsm : RaftFsm S) where
  -- What a task makes of the state machine, and of its slot.
  abbrev pub after : S → Task → S
  after st (command c) = (apply_one address_of fsm st c).0
  after st (entry c t) = st
  after st (restore p path) = (fsm.restore st path).0

  abbrev pub after_all : S → List Task → S
  after_all st [] = st
  after_all st (t ∷ ts) = after_all (after st t) ts

  abbrev pub Served : (ℕ → Option Slot) → S → Task → Type 0
  Served slots st (command c) = Answered slots c (apply_one address_of fsm st c).1
  Served slots st (entry c t) = (s : Slot) × (slots c.at ≡ some s) × (s.state ≡ CallState.pending)
  Served slots st (restore p path) =
      (s : Slot) × (slots p ≡ some s)
      × (s.state ≡ (if (fsm.restore st path).1 == 0 then CallState.success else CallState.error))
      × (s.error ≡ (if (fsm.restore st path).1 == 0 then RaftError.success else RaftError.other))

  abbrev pub AllServed : (ℕ → Option Slot) → S → List Task → Type 0
  AllServed slots st [] = Unit
  AllServed slots st (t ∷ ts) = Served slots st t × AllServed slots (after st t) ts

  -- What a round leaves.
  pub record Round (w : World) (st : S) (t : Task) (ts : List Task) (w' : World) : Type 0 where
    pub steps : fsm_worker_step address_of fsm st w ≡ ret (after st t) w'
    pub left : Represents queue_capacity w'.fsm_queue (queued ts)
    pub opened : w'.fsm_queue.closed ≡ false
    pub served : Served w'.slots st t
    pub kept : (p : ℕ) → p ≢ at t → w'.slots p ≡ w.slots p

  round :
      (w : World) (st : S) (t : Task) (s : Slot) (ts : List Task)
      → Represents queue_capacity w.fsm_queue (queued (t ∷ ts))
      → w.fsm_queue.closed ≡ false
      → w.slots (at t) ≡ some s
      → Holds s t
      → (w' : World) × Round w st t ts w'
  round w st (command c) s ts r e es h =
      let (w', f, r', e', a, k) = command_step address_of fsm w st c s (queued ts) r e es h in
      (w', record { steps = f; left = r'; opened = e'; served = a; kept = k })
  round w st (entry c t) s ts r e es (free, new, args, nc) =
      let (q, f, r', e') = take_first address_of fsm w (CallTag.fsm_apply, c.at) (queued ts) r e in
      (
        record w { fsm_queue = q; slots = update w.slots c.at (some (stamped w s)) },
        record {
          steps =
              noop_unanswered address_of fsm w st c.at c.index c.term c.data_buf c.data_len t s q f
                es free new args nc;
          left = r';
          opened = e';
          served = (stamped w s, ground arith, new);
          kept = λ p ne. ground arith;
        },
      )
  round w st (restore p path) s ts r e es (free, new, args, np) =
      let (q, f, r', e') = take_first address_of fsm w (CallTag.fsm_restore, p) (queued ts) r e in
      let (w', s', g, h, state, err, left, kept) =
        restore_answered address_of fsm w st p path s q f es free new args np in
      (
        w',
        record {
          steps = g;
          left = subst (λ x. Represents queue_capacity x (queued ts)) (sym left) r';
          opened = ap (λ x. x.closed) left ∙ e';
          served = (s', h, state, err);
          kept = kept;
        },
      )

  AllHeld-kept :
      (f g : ℕ → Option Slot) (p : ℕ) (ts : List Task)
      → ((q : ℕ) → q ≢ p → g q ≡ f q)
      → Apart p ts
      → AllHeld f ts
      → AllHeld g ts
  AllHeld-kept f g p [] h a k = tt
  AllHeld-kept f g p (t ∷ ts) h a k =
      ((k.0.0, h (at t) (λ e. a.0 (sym e)) ∙ k.0.1, k.0.2), k.1, AllHeld-kept f g p ts h a.1 k.2)

  -- What is found at the slot of a task that later rounds leave alone.
  Served-kept :
      (f g : ℕ → Option Slot) (st : S) (t : Task)
      → g (at t) ≡ f (at t)
      → Served f st t
      → Served g st t
  Served-kept f g st (command c) h (s, e, a, b, d) = (s, h ∙ e, a, b, d)
  Served-kept f g st (entry c t) h (s, e, a) = (s, h ∙ e, a)
  Served-kept f g st (restore p path) h (s, e, a, b) = (s, h ∙ e, a, b)

  -- With commands, other entries of the log and restores queued at different slots that are pending,
  -- the worker's next rounds, one for each, all succeed. The state machine ends as the run of `apply` and
  -- `restore` over them in the order of the queue, the other entries left out. A command's slot holds
  -- success and the response `apply` gave at that point; a restore's holds success if `restore`
  -- returned 0 and RAFT_E_OTHER if not; the slot of any other entry is pending still. The queue is
  -- empty, and every other slot is as it was.
  pub tasks_served :
      (w : World) (st : S) (ts : List Task)
      → Represents queue_capacity w.fsm_queue (queued ts)
      → w.fsm_queue.closed ≡ false
      → AllHeld w.slots ts
      → (w' : World) × (run_fsm_worker address_of fsm (length ts) st w ≡ ret (after_all st ts) w')
        × AllServed w'.slots st ts
        × Represents queue_capacity w'.fsm_queue []
        × ((p : ℕ) → Apart p ts → w'.slots p ≡ w.slots p)
  unfolding run_fsm_worker
  tasks_served w st [] r e k = (w, refl, tt, r, λ p a. refl)
  tasks_served w st (t ∷ ts) r e ((s, es, h), apart, k) =
      let (v, d) = round w st t s ts r e es h in
      let (w', g, all, r', kept) =
        tasks_served v (after st t) ts d.left d.opened
          (AllHeld-kept w.slots v.slots (at t) ts d.kept apart k) in
      (
        w',
        ground (arith, d.steps, g),
        (Served-kept v.slots w'.slots st t (kept (at t) apart) d.served, all),
        r',
        λ p q. kept p q.1 ∙ d.kept p q.0,
      )
