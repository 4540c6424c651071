-- ===== src/Example/Run.antt =====
-- The runs of raft_client.c between its start and its end: every round of the automatic run, every
-- line of the interactive one.
use libraft.Prelude.{
  ℕ, zero, suc, ◌+◌, ◌%◌, ◌^◌, ◌≤◌, ◌<◌, ◌≡◌, ◌≢◌, refl, Bool, true, false, ◌&&◌, List, [], ◌∷◌,
  Option, some, arith, update, update_self, ◌==◌, if◌then◌else◌,
}
use libraft.Call.{Call, Args, tag}
use libraft.Slot.{Slot, new_slot, is_success, is_terminal}
use libraft.Queue.Blocking.{put, store}
use libraft.World.{World, ret, inc, in_shm_bounds, allocate_buf}
use libraft.Request.{queue_capacity, send_api_request}
use libraft.Future.{ready, nonzero, dispose, raft_future_wait}
use libraft.Future.Results.{seen_in, ==_false}
use libraft.Future.Disposal.{freed}
use libraft.Client.{raft_apply, raft_snapshot}
use libraft.Client.Sending.{fresh}
use libraft.Example.Commands.{bufsize, Report, Line, send_command, take_snapshot}
use libraft.Example.Sent.{send_command_answered}

-- The world after a request was queued.
abbrev pub asked : World → ℕ → Call → Args → World
asked w p call args = record w {
  slots = update (update w.slots p (some (new_slot call args))) p (some (fresh w call args));
  stats = record w.stats { call_alloc = inc w.stats.call_alloc };
  api_queue = store queue_capacity w.api_queue (tag call, p);
}

abbrev given_back : World → ℕ → World
given_back w buf = record w {
  freed_buffers = buf ∷ w.freed_buffers;
  stats = record w.stats { buffer_free = inc w.stats.buffer_free };
}

pub asked_lem :
    (p : ℕ) (call : Call) (args : Args) (w : World)
    → w.api_queue.closed ≡ false
    → (w.api_queue.count == queue_capacity) ≡ false
    → send_api_request p call args w ≡ ret p (asked w p call args)
unfolding send_api_request put new_slot
asked_lem p call args w o c = ground arith

-- Whether a line is of a command.
abbrev pub of_command : Line → Bool
of_command (Line.command report) = true
of_command (Line.snapshot done) = false

-- What each of the rounds from `i` on prints: a command, and a snapshot if its number is a multiple
-- of the period.
abbrev pub printed : ℕ → ℕ → ℕ → List Bool
printed period zero i = []
printed period (suc left) i =
    let rest = printed period left (i + 1) in
    if nonzero period && i % period == 0 then true ∷ false ∷ rest else true ∷ rest

module _ (base size : ℕ) where
  abbrev pub Inside : ℕ → Type 0
  Inside a = (a ≢ 0) × (base ≤ a) × (a < base + size)

  -- The mapping is where it was, and the queue of API calls is open and has room.
  pub record Serving (w : World) : Type 0 where
    pub base_at : w.shm_base ≡ base
    pub size_at : w.shm_size ≡ size
    pub opened : w.api_queue.closed ≡ false
    pub room : (w.api_queue.count == queue_capacity) ≡ false

  pub Inside-in_shm_bounds :
      (a : ℕ) (w : World)
      → Inside a
      → w.shm_base ≡ base
      → w.shm_size ≡ size
      → in_shm_bounds w a ≡ true
  unfolding in_shm_bounds
  Inside-in_shm_bounds a w (nz, l, h) b s = ground arith

  module _ (env : ℕ → World → World) (heap : World → ℕ → Option ℕ) (sleep : World → World) where
    -- While a client waits for an open call, Raft answers it and takes calls off its queue; a success
    -- of Apply has an address where a count is found, and one of Stats a handle that is not null.
    pub record Answers (p : ℕ) (w : World) (s : Slot) : Type 0 where
      pub serving : Serving (env p w)
      pub answer : Slot
      pub slot : (env p w).slots p ≡ some answer
      pub ready : ready answer ≡ true
      pub call : answer.call ≡ s.call
      pub count : ℕ
      pub reply :
          s.call ≡ Call.apply
          → is_success answer.error ≡ true
          → (answer.retval ≢ 0) × (heap (seen_in (env p w) p answer) answer.retval ≡ some count)
      pub handle : s.call ≡ Call.stats → is_success answer.error ≡ true → answer.retval ≢ 0

    -- What the program relies on: that Raft answers, that the others keep the mapping and the queue as
    -- they should be while it sleeps, and that the allocators give addresses in the mapping.
    pub record Partner (slot snap buffer : ℕ → ℕ) : Type 0 where
      pub answers :
          (p : ℕ) (w : World) (s : Slot)
          → w.slots p ≡ some s
          → is_terminal s.state ≡ false
          → w.shm_base ≡ base
          → w.shm_size ≡ size
          → Answers p w s
      pub rests : (w : World) → Serving w → Serving (sleep w)
      pub fits : base + size ≤ 2 ^ 64
      pub places :
          (i : ℕ)
          → Inside (slot i) × Inside (snap i) × Inside (buffer i) × Inside (buffer i + bufsize)

module _ {base size : ℕ} {env : ℕ → World → World} {heap : World → ℕ → Option ℕ}
    {sleep : World → World} {slot snap buffer : ℕ → ℕ}
    (others : Partner base size env heap sleep slot snap buffer) where
  open others use {answers, fits}

  pub asked-Answers :
      (p : ℕ) (call : Call) (args : Args) (w : World)
      → Serving base size w
      → Answers base size env heap sleep p (asked w p call args) (fresh w call args)
  unfolding new_slot
  asked-Answers p call args w o =
      answers p (asked w p call args) (fresh w call args)
        (update_self (update w.slots p (some (new_slot call args))) p (some (fresh w call args)))
        refl o.base_at o.size_at

  raft_apply-asked :
      (p buf : ℕ) (w : World)
      → Serving base size w
      → Inside base size buf
      → Inside base size (buf + bufsize)
      → raft_apply p buf bufsize 0 w ≡ ret p (asked w p Call.apply (Args.apply_args buf bufsize 0))
  unfolding raft_apply
  raft_apply-asked p buf w o b e =
      let (_, _, high) = e in
      let small : (buf + bufsize) % 2 ^ 64 ≡ buf + bufsize = omega arith in
      ground (
        arith,
        Inside-in_shm_bounds base size buf w b o.base_at o.size_at,
        Inside-in_shm_bounds base size (buf + bufsize) w e o.base_at o.size_at,
        ==_false b.0,
        asked_lem p Call.apply (Args.apply_args buf bufsize 0) w o.opened o.room,
      )

  pub send_command_ends :
      (p buf : ℕ) (w : World)
      → Serving base size w
      → Inside base size p
      → Inside base size buf
      → Inside base size (buf + bufsize)
      → (report : Report) × (w' : World) × (send_command env heap sleep p buf w ≡ ret report w')
        × Serving base size w'
  unfolding new_slot
  send_command_ends p buf w o (nz, lp, hp) b e =
      let args : Args = Args.apply_args buf bufsize 0 in
      let w1 = asked w p Call.apply args in
      let a = asked-Answers p Call.apply args w o in
      (
        if is_success a.answer.error
            then Report.letter_count a.count a.answer.retval
            else Report.raft_error a.answer.error,
        given_back (freed (seen_in (env p w1) p a.answer) p) buf,
        send_command_answered env heap sleep p buf a.count w w1 (fresh w Call.apply args) a.answer
            nz (raft_apply-asked p buf w o b e)
            (Inside-in_shm_bounds base size p w1 (nz, lp, hp) o.base_at o.size_at)
            (update_self (update w.slots p (some (new_slot Call.apply args))) p
              (some (fresh w Call.apply args)))
            refl a.slot a.ready a.call (a.reply refl),
        record {
          base_at = a.serving.base_at;
          size_at = a.serving.size_at;
          opened = a.serving.opened;
          room = a.serving.room;
        },
      )

  -- A new buffer.
  pub allocated :
      (buf : ℕ) (w : World)
      → Serving base size w
      → (v : World) × (allocate_buf buf w ≡ ret buf v) × Serving base size v
  unfolding allocate_buf
  allocated buf w o = (
    record w { stats = record w.stats { buffer_alloc = inc w.stats.buffer_alloc } },
    refl,
    record { base_at = o.base_at; size_at = o.size_at; opened = o.opened; room = o.room },
  )

  pub take_snapshot_ends :
      (p : ℕ) (w : World)
      → Serving base size w
      → Inside base size p
      → (done : Bool) × (w' : World) × (take_snapshot env heap sleep p w ≡ ret done w')
        × Serving base size w'
  unfolding take_snapshot raft_snapshot raft_future_wait dispose new_slot
  take_snapshot_ends p w o i =
      let w1 = asked w p Call.snapshot Args.no_args in
      let a = asked-Answers p Call.snapshot Args.no_args w o in
      (
        is_success a.answer.error,
        freed (seen_in (env p w1) p a.answer) p,
        ground (
          arith,
          asked_lem p Call.snapshot Args.no_args w o.opened o.room,
          ==_false i.0,
          Inside-in_shm_bounds base size p w1 i o.base_at o.size_at,
          a.slot,
          a.ready,
        ),
        record {
          base_at = a.serving.base_at;
          size_at = a.serving.size_at;
          opened = a.serving.opened;
          room = a.serving.room;
        },
      )
