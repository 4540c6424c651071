-- ===== src/Snapshots/Reports.antt =====
-- What the snapshot thread reports for a job.
use libraft.Prelude.{
  ℕ, ◌≡◌, refl, Bool, false, ◌==◌, List, Option, none, some, arith, update, Option-cases, inl, inr,
  ◌∙◌, if◌then◌else◌,
}
use libraft.Text.{codes}
use libraft.Errors.{RaftError}
use libraft.Call.{Args}
use libraft.Timings.{record_at}
use libraft.Slot.{Slot, CallState, reply_err, is_terminal}
use libraft.World.{World, ret}
use libraft.Snapshots.{SnapshotJob, Sinks, raft_fsm_snapshot_complete, run_snapshot_job}

module _ (sinks : Sinks) (job : SnapshotJob) where
  -- The world after the job's file work, and whether the file was opened, the client's function
  -- returned 0, and the file was closed without an error.
  abbrev pub after_write : Option ℕ → World → World
  after_write none w = w
  after_write (some sink) w = (sinks.call job.func job.handle sink w).1

  abbrev pub written : Option ℕ → World → Bool
  written none w = false
  written (some sink) w =
      if (sinks.call job.func job.handle sink w).0 == 0
      then sinks.fclose sink (after_write (some sink) w) == 0
      else false

  -- The slot of a job as it is left.
  abbrev reported : World → Slot → Bool → Slot
  reported w s ok = record s {
    error = if ok then RaftError.success else RaftError.other;
    state = if ok then CallState.success else CallState.error;
    timings = record_at s.timings (codes "reply sent") w.now;
  }

  complete_lem :
      (w : World) (s : Slot) (ok : Bool)
      → w.slots job.slot ≡ some s
      → s.held ≡ false
      → is_terminal s.state ≡ false
      → (w' : World) × (s' : Slot) × (raft_fsm_snapshot_complete job.slot ok w ≡ ret tt w')
        × (w'.slots job.slot ≡ some s')
        × (s'.state ≡ (if ok then CallState.success else CallState.error))
        × (s'.error ≡ (if ok then RaftError.success else RaftError.other))
  unfolding raft_fsm_snapshot_complete reply_err
  complete_lem w s ok es free live = (
    record w { slots = update w.slots job.slot (some (reported w s ok)) },
    reported w s ok,
    ground arith,
    ground arith,
    refl,
    refl,
  )

  -- A job whose call is open, and whose slot the client's function leaves alone, is reported whatever
  -- happens to its file: the call ends as a success exactly if the file was opened, the function
  -- returned 0 and the file was closed without an error, and otherwise with RAFT_E_OTHER.
  pub run_snapshot_job_lem :
      (w : World) (s : Slot) (path : List ℕ)
      → w.slots job.slot ≡ some s
      → s.held ≡ false
      → is_terminal s.state ≡ false
      → s.args ≡ Args.filename path
      → ((sink : ℕ) (v : World)
          → (sinks.call job.func job.handle sink v).1.slots job.slot ≡ v.slots job.slot)
      → (w' : World) × (s' : Slot) × (run_snapshot_job sinks job w ≡ ret tt w')
        × (w'.slots job.slot ≡ some s')
        × (s'.state
            ≡ (if written (sinks.fopen path w) w then CallState.success else CallState.error))
        × (s'.error
            ≡ (if written (sinks.fopen path w) w then RaftError.success else RaftError.other))
  unfolding run_snapshot_job
  run_snapshot_job_lem w s path es free live ea kept = elim (Option-cases (sinks.fopen path w)) [
    | inl e ↦
        let (w', s', f, g, h, k) = complete_lem w s false es free live in
        (w', s', ground (arith, f, e), g, ground (arith, h), ground (arith, k))
    | inr (sink, e) ↦
        let v = after_write (some sink) w in
        let (w', s', f, g, h, k) =
          complete_lem v s (written (some sink) w) (kept sink w ∙ es) free live in
        (w', s', ground (arith, f, e), g, ground (arith, h, e), ground (arith, k, e))
  ]
