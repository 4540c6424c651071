-- ===== src/Process.antt =====
-- The raft_if process of raft_shm.cc: its command line, the thread that watches it, and how its end
-- is reported.
pub mod Watching
use libraft.Prelude.{
  ℕ, Bool, true, false, ◌&&◌, ◌==◌, ltb, List, [], ◌∷◌, Option, none, some, if◌then◌else◌,
}
use libraft.Text.{codes, c_str}
use libraft.Config.{RaftConfig}
use libraft.World.{World}

-- A wait status as its macros read it; `other` is one that none of the three recognises.
pub data Status : Type 0 where
  exited : ℕ → Status
  signaled : ℕ → Status
  stopped : ℕ → Status
  other : Status

-- What `waitpid` returns: -1, 0, or a pid and its status.
pub data Waited : Type 0 where
  failed : Waited
  nothing : Waited
  child : ℕ → Status → Waited

-- The line that is written; `aborted` is the failed assertion.
pub data Line : Type 0 where
  exited_normally : ℕ → Line
  exited_abnormally : ℕ → ℕ → Line
  terminated_by : ℕ → ℕ → Line
  stopped_by : ℕ → ℕ → Line
  aborted : Line

unfoldable pub report_process_status : ℕ → Status → Line
report_process_status pid (Status.exited code) =
    if code == 0 then Line.exited_normally pid else Line.exited_abnormally pid code
report_process_status pid (Status.signaled sig) = Line.terminated_by pid sig
report_process_status pid (Status.stopped sig) = Line.stopped_by pid sig
report_process_status pid Status.other = Line.aborted

-- How the watcher ends: it returns, or it ends the client's process by `exit(1)` or by a failed
-- assertion, or it waits again.
pub data Verdict : Type 0 where
  watches : Verdict
  returns : Verdict
  exits : ℕ → Verdict
  aborts : Verdict

-- The flags of the scoreboard when the status is looked at.
pub record Flags : Type 0 where
  pub shutdown_requested : Bool
  pub raft_killed : Bool

-- `WIFEXITED(status) && WEXITSTATUS(status) == 0`
abbrev exited_zero : Status → Bool
exited_zero (Status.exited code) = code == 0
exited_zero _ = false

is_aborted : Line → Bool
is_aborted Line.aborted = true
is_aborted _ = false

abbrev ended : Flags → ℕ → Status → Verdict
ended f raft_pid status =
    if is_aborted (report_process_status raft_pid status)
    then Verdict.aborts
    else if f.shutdown_requested && exited_zero status
    then Verdict.returns
    else if f.shutdown_requested && f.raft_killed
    then Verdict.returns
    else Verdict.exits 1

unfoldable pub watch_step : Flags → ℕ → Waited → Verdict
unfolding is_aborted report_process_status
watch_step f raft_pid Waited.failed = Verdict.exits 1
watch_step f raft_pid Waited.nothing = Verdict.aborts
watch_step f raft_pid (Waited.child pid (Status.stopped sig)) = Verdict.watches
watch_step f raft_pid (Waited.child pid status) = ended f raft_pid status

-- The loop over what `waitpid` returns each time, with the flags as they stand by then.
unfoldable pub watch_raft_proc : ℕ → List (Flags × Waited) → Verdict
unfolding watch_step
watch_raft_proc raft_pid [] = Verdict.watches
watch_raft_proc raft_pid ((f, r) ∷ more) = elim (watch_step f raft_pid r) [
  | Verdict.watches ↦ watch_raft_proc raft_pid more
  | Verdict.returns ↦ Verdict.returns
  | Verdict.exits code ↦ Verdict.exits code
  | Verdict.aborts ↦ Verdict.aborts
]

-- The pointers of the command line, as the strings they point at, before the null one.
unfoldable pub build_raft_argv : RaftConfig → List (Option (List ℕ))
build_raft_argv cfg =
    some (codes "raft_if") ∷ some (codes "--shm-path") ∷ c_str cfg.shm_path ∷ none ∷ []

-- `signalled` is what `kill(raft_pid, SIGTERM)` returns.
unfoldable pub kill_raft_ : ℕ → World → ℕ × World
kill_raft_ signalled w = (signalled, record w { raft_killed = true })
