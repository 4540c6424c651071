-- ===== src/Example/Saved.antt =====
-- A snapshot of the example client from one end to the other: asked for through the FSM queue, written
-- by the snapshot thread, and read back by another client.
use libraft.Prelude.{
  ℕ, ◌≡◌, ◌≢◌, refl, ap, ◌∙◌, ◌<◌, ◌^◌, ◌==◌, true, false, List, [], ◌∷◌, Option, none, some, arith,
  update, update_self, if◌then◌else◌,
}
use libraft.Call.{CallTag, Args}
use libraft.Slot.{Slot, CallState}
use libraft.Queue.Deque.{put, take}
use libraft.Queue.Blocking.Represents.{Represents}
use libraft.Request.{queue_capacity}
use libraft.World.{World, ret}
use libraft.Snapshots.{SnapshotJob, Sinks, Worker, raft_fsm_take_snapshot, run_snapshot_worker}
use libraft.Snapshots.Reports.{run_snapshot_job_lem}
use libraft.Fsm.{fsm_worker_step, nonempty}
use libraft.Fsm.Answers.{take_first}
use libraft.Fsm.Unanswered.{stamped, snapshot_call, snapshot_begun, restore_answered}
use libraft.Example.Machine.{
  Machine, Source, print_line, fsm_restore, write_snapshot, fsm_begin_snapshot, fsm_def,
}
use libraft.Example.RoundTrip.{scan-print_line}

-- A call about a file is the next in the FSM queue, its slot open and not locked.
pub record Next (w : World) (tag : CallTag) (p : ℕ) (path : List ℕ) (s : Slot)
    (xs : List (CallTag × ℕ)) : Type 0 where
  pub queue : Represents queue_capacity w.fsm_queue ((tag, p) ∷ xs)
  pub opened : w.fsm_queue.closed ≡ false
  pub slot : w.slots p ≡ some s
  pub free : s.held ≡ false
  pub new : s.state ≡ CallState.pending
  pub args : s.args ≡ Args.filename path

-- What the snapshot thread calls at the address `write`: `write_snapshot`, of the machine as it is by
-- then, with a `fprintf` that succeeds. Another address holds no function, and a handle with no
-- memory behind it no count: both end in an error.
abbrev pub client_sinks : (List ℕ → World → Option ℕ) → (ℕ → World → ℕ) → ℕ → Machine → Sinks
client_sinks fopen fclose write m = record {
  fopen = fopen;
  call = λ func handle sink w.
      if func == write
      then elim (write_snapshot true handle m) [ none ↦ (1, w) | some (m', rc, text) ↦ (rc, w) ]
      else (1, w);
  fclose = fclose;
}

module _ (memory : ℕ → ℕ) (malloc : Machine → ℕ) (write : ℕ) (address_of : ℕ → ℕ) where
  -- The job for the call at `p` of a machine's count.
  abbrev pub job : ℕ → Machine → SnapshotJob
  job p m = record { slot = p; handle = malloc m; func = write }

  -- The machine once its count is in memory of its own and the job handed over.
  abbrev pub begun : ℕ → Machine → Machine
  begun p m = record m {
    cells = update m.cells (malloc m) (some m.letter_count);
    worker = record {
      snapshot_queue = record { items = job p m ∷ []; closed = false };
      joinable = true;
    };
  }

  begin_snapshot-begun :
      (files : List ℕ → Option Source) (path : List ℕ) (p : ℕ) (m : Machine) (w : World)
      → malloc m ≢ 0
      → write ≢ 0
      → p ≢ 0
      → m.worker.snapshot_queue ≡ record { items = []; closed = false }
      → (fsm_def memory malloc write files).begin_snapshot m path p w ≡ (begun p m, w)
  unfolding fsm_begin_snapshot raft_fsm_take_snapshot put
  begin_snapshot-begun files path p m w nz wr pn e = ground arith

  -- What writing the count does, and the text that it gives.
  abbrev pub released : Machine → Machine → Machine
  released m n = record n { cells = update n.cells (malloc m) none }

  write-count :
      (m n : Machine)
      → n.cells (malloc m) ≡ some m.letter_count
      → write_snapshot true (malloc m) n ≡ some (released m n, 0, print_line m.letter_count)
  unfolding write_snapshot
  write-count m n c = ground arith

  job_done :
      (fopen : List ℕ → World → Option ℕ) (fclose : ℕ → World → ℕ) (path : List ℕ) (p sink : ℕ)
      (m n : Machine) (s : Slot) (v : World)
      → n.cells (malloc m) ≡ some m.letter_count
      → fopen path v ≡ some sink
      → fclose sink v ≡ 0
      → v.slots p ≡ some s
      → s.held ≡ false
      → s.state ≡ CallState.pending
      → s.args ≡ Args.filename path
      → (v' : World) × (s' : Slot) × (run_snapshot_worker
            (client_sinks fopen fclose write n)
            1
            (begun p m).worker
            v
          ≡ ret
              (record { snapshot_queue = record { items = []; closed = false }; joinable = true })
              v')
        × (v'.slots p ≡ some s')
        × (s'.state ≡ CallState.success)
  unfolding run_snapshot_worker take
  job_done fopen fclose path p sink m n s v c o cl es free new ea =
      let wrote = write-count m n c in
      let same : (write == write) ≡ true = ground arith in
      let (v', s', f, g, h, k) =
        run_snapshot_job_lem (client_sinks fopen fclose write n) (job p m) v s path es free
          (ground arith) ea (λ sink v. ground (arith, wrote, same)) in
      (v', s', ground (arith, f), g, ground (arith, h, wrote, same, o, cl))

  restore_done :
      (files : List ℕ → Option Source) (path : List ℕ) (n : ℕ) (other : Machine)
      → n < 2 ^ 32
      → files path ≡ some (record { text = print_line n; closes = true })
      → (fsm_def memory malloc write files).restore other path
        ≡ (record other { letter_count = n }, 0)
  unfolding fsm_restore
  restore_done files path n other small e = ground (arith, scan-print_line n small)

  -- A snapshot call with a path is next in the FSM queue, with memory for the count and no snapshot
  -- waiting; until the job is run the others leave the call alone, and the machine, which may count
  -- on, leaves that memory alone; the file can be opened, written and closed, and holds what was
  -- written when it is opened later. Then the FSM worker's round returns and leaves the count as it
  -- was; the snapshot thread's round returns, answers the call with a success and gives the memory
  -- back; and another client whose FSM worker takes a restore of that path has the count of the
  -- machine when the snapshot was begun, whatever it had before, and answers with a success.
  pub saved_and_restored :
      (before : List ℕ → Option Source) (files : List ℕ → List ℕ → Option Source)
      (fopen : List ℕ → World → Option ℕ) (fclose : ℕ → World → ℕ) (sink : ℕ) (path : List ℕ)
      (p r : ℕ) (m other : Machine) (w u : World) (s t : Slot) (xs ys : List (CallTag × ℕ))
      (others : World → World) (later : Machine → Machine)
      → nonempty path ≡ true
      → m.letter_count < 2 ^ 32
      → malloc m ≢ 0
      → write ≢ 0
      → p ≢ 0
      → m.worker.snapshot_queue ≡ record { items = []; closed = false }
      → Next w CallTag.fsm_snapshot p path s xs
      → ((v : World) → (others v).slots p ≡ v.slots p)
      → ((n : Machine) → (later n).cells (malloc m) ≡ n.cells (malloc m))
      → ((v : World) → (fopen path v ≡ some sink) × (fclose sink v ≡ 0))
      → Next u CallTag.fsm_restore r path t ys
      → ((text : List ℕ) → files text path ≡ some (record { text = text; closes = true }))
      → (m' freed : Machine) × (w' v u' : World) × (k : Worker) × (text : List ℕ) × (s' t' : Slot)
        × (fsm_worker_step address_of (fsm_def memory malloc write before) m w ≡ ret m' w')
        × (m'.letter_count ≡ m.letter_count)
        × (write_snapshot true (malloc m) (later m') ≡ some (freed, 0, text))
        × (freed.cells (malloc m) ≡ none)
        × (run_snapshot_worker (client_sinks fopen fclose write (later m')) 1 m'.worker (others w')
            ≡ ret k v)
        × (k.snapshot_queue ≡ record { items = []; closed = false })
        × (v.slots p ≡ some s')
        × (s'.state ≡ CallState.success)
        × (fsm_worker_step address_of (fsm_def memory malloc write (files text)) other u
            ≡ ret (record other { letter_count = m.letter_count }) u')
        × (u'.slots r ≡ some t')
        × (t'.state ≡ CallState.success)
  saved_and_restored before files fopen fclose sink path p r m other w u s t xs ys others later np
        small nz wr pn idle ask keep hold file ask' read =
      let def = fsm_def memory malloc write before in
      let def' = fsm_def memory malloc write (files (print_line m.letter_count)) in
      let (q, f, _, _) =
        take_first address_of def w (CallTag.fsm_snapshot, p) xs ask.queue ask.opened in
      let w' = snapshot_call address_of def w p s q in
      let step =
        snapshot_begun address_of def w m p path s q f ask.slot ask.free ask.new ask.args np in
      let begin = begin_snapshot-begun before path p m w' nz wr pn idle in
      let held : (later (begun p m)).cells (malloc m) ≡ some m.letter_count =
        hold (begun p m) ∙ update_self m.cells (malloc m) (some m.letter_count) in
      let slot : (others w').slots p ≡ some (stamped w s) =
        keep w' ∙ update_self w.slots p (some (stamped w s)) in
      let (v, s', run, at_p, state) =
        job_done fopen fclose path p sink m (later (begun p m)) (stamped w s) (others w') held
          (file (others w')).0 (file (others w')).1 slot ask.free ask.new ask.args in
      let (q', f', _, _) =
        take_first address_of def' u (CallTag.fsm_restore, r) ys ask'.queue ask'.opened in
      let back =
        restore_done (files (print_line m.letter_count)) path m.letter_count other small
          (read (print_line m.letter_count)) in
      let (u', t', step', at_r, state', _, _, _) =
        restore_answered address_of def' u other r path t q' f' ask'.slot ask'.free ask'.new
          ask'.args np in
      (
        begun p m,
        released m (later (begun p m)),
        w',
        v,
        u',
        record { snapshot_queue = record { items = []; closed = false }; joinable = true },
        print_line m.letter_count,
        s',
        t',
        step ∙ ap (λ b. ret b.0 b.1) begin,
        refl,
        write-count m (later (begun p m)) held,
        update_self (later (begun p m)).cells (malloc m) none,
        run,
        refl,
        at_p,
        state,
        step' ∙ ap (λ b. ret b.0 u') back,
        at_r,
        state' ∙ ap (λ b. if b.1 == 0 then CallState.success else CallState.error) back,
      )
