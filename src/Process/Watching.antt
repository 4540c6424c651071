-- ===== src/Process/Watching.antt =====
-- What ends the watcher of the raft_if process.
use libraft.Prelude.{
  ℕ, ◌≡◌, Bool, true, false, ◌&&◌, ◌||◌, ◌==◌, List, [], ◌∷◌, ◌++◌, arith, if◌then◌else◌,
}
use libraft.Process.{
  Status, Waited, Verdict, Flags, watch_raft_proc, watch_step, report_process_status, is_aborted,
}

-- A status of a process that is gone.
abbrev pub is_end : Status → Bool
is_end (Status.exited code) = true
is_end (Status.signaled sig) = true
is_end _ = false

-- An end that the client asked for: the process left with 0, or `kill_raft_` was called.
abbrev pub is_wanted : Flags → Status → Bool
is_wanted f (Status.exited code) = f.shutdown_requested && (code == 0 || f.raft_killed)
is_wanted f status = f.shutdown_requested && f.raft_killed

-- Any number of stops by a debugger or a signal.
abbrev pub stops : List (Flags × ℕ × ℕ) → List (Flags × Waited)
stops [] = []
stops ((f, pid, sig) ∷ more) = (f, Waited.child pid (Status.stopped sig)) ∷ stops more

-- However often the process stops, the watcher goes on; when the process has exited or was killed
-- by a signal, the watcher returns if a shutdown was requested and the exit status was 0 or the
-- library had killed the process, and otherwise takes the whole client process down by `exit(1)`.
pub watch_raft_proc_lem :
    (raft_pid pid : ℕ) (ps : List (Flags × ℕ × ℕ)) (f : Flags) (status : Status)
    (more : List (Flags × Waited))
    → is_end status ≡ true
    → watch_raft_proc raft_pid (stops ps ++ (f, Waited.child pid status) ∷ more)
      ≡ (if is_wanted f status then Verdict.returns else Verdict.exits 1)
unfolding watch_raft_proc watch_step report_process_status is_aborted
watch_raft_proc_lem raft_pid pid [] f (Status.exited code) more e = ground arith
watch_raft_proc_lem raft_pid pid [] f (Status.signaled sig) more e = ground arith
watch_raft_proc_lem raft_pid pid [] f (Status.stopped sig) more e = ground arith
watch_raft_proc_lem raft_pid pid [] f Status.other more e = ground arith
watch_raft_proc_lem raft_pid pid ((g, q, sig) ∷ ps) f status more e =
    watch_raft_proc_lem raft_pid pid ps f status more e
