-- ===== src/Tests/Threads.antt =====
-- Runs of the threads that serve calls and of the one that watches the Raft process.
use libraft.Prelude.{
  none, ℕ, ◌+◌, ◌≡◌, refl, true, List, [], ◌∷◌, ◌++◌, some, arith, update, if◌then◌else◌,
}
use libraft.Text.{codes}
use libraft.Errors.{RaftError, RaftLogType}
use libraft.Call.{Call, CallTag, Args}
use libraft.Slot.{Slot, CallState, ClientState}
use libraft.Queue.Blocking.Represents.{Represents}
use libraft.World.{World, ret}
use libraft.Fsm.{RaftFsm, run_fsm_worker}
use libraft.Fsm.Answers.{Command, Asked, queued}
use libraft.Fsm.Mixed
use libraft.Fsm.Mixed.{Task, AllServed, tasks_served}
use libraft.Snapshots.{SnapshotJob, Sinks, run_snapshot_job}
use libraft.Snapshots.Reports.{written, run_snapshot_job_lem}
use libraft.Process.{Status, Waited, Verdict, Flags, watch_raft_proc}
use libraft.Process.Watching.{stops, is_wanted, watch_raft_proc_lem}
use libraft.Tests.Samples.{ne_0, no_calls, slot_of, holding, holding_two}

-- A machine that adds the lengths of its commands up, answers with the sum, and fails to restore.
abbrev summing : RaftFsm ℕ
summing = record {
  apply = λ st index term t buf len. (st + len, st + len);
  begin_snapshot = λ st path p w. (st, w);
  restore = λ st path. (st, 1);
}

abbrev pub address_of : ℕ → ℕ
address_of handle = 4096 + handle

abbrev entry_at : ℕ → RaftLogType → ℕ → Slot
entry_at index t len =
    slot_of Call.fsm_apply (Args.log_entry index 1 t 64 len) CallState.pending ClientState.issued 0
      RaftError.success

abbrev pub entry : RaftLogType → ℕ → Slot
entry t len = entry_at 1 t len

-- Two commands at the end and the start of the array.
abbrev pub commands : List Command
commands =
    record { at = 5000; index = 1; term = 1; data_buf = 64; data_len = 3 }
    ∷ record { at = 5400; index = 1; term = 1; data_buf = 64; data_len = 4 }
    ∷ []

abbrev pub two : World
two = record (holding_two 5000 (entry RaftLogType.command 3) 5400 (entry RaftLogType.command 4)) {
  fsm_queue = record no_calls {
    array =
        (CallTag.fsm_apply, 5400)
        ∷ (CallTag.invalid, 0)
        ∷ (CallTag.invalid, 0)
        ∷ (CallTag.invalid, 0)
        ∷ (CallTag.invalid, 0)
        ∷ (CallTag.invalid, 0)
        ∷ (CallTag.invalid, 0)
        ∷ (CallTag.fsm_apply, 5000)
        ∷ [];
    head = 1;
    tail = 7;
    count = 2;
  };
}

pub two-Represents : Represents 8 two.fsm_queue (queued commands)
two-Represents = record {
  storage = refl;
  small = omega arith;
  tail_in = omega arith;
  counted = refl;
  fits = omega arith;
  head_at = refl;
  held = (refl, (refl, tt));
}

pub two-Asked : Asked two.slots commands
two-Asked = (
  (
    entry RaftLogType.command 3,
    refl,
    record { free = refl; new = refl; entry = refl; has_data = ne_0 },
  ),
  ((λ e. omega arith), tt),
  (
    (
      entry RaftLogType.command 4,
      refl,
      record { free = refl; new = refl; entry = refl; has_data = ne_0 },
    ),
    tt,
    tt,
  ),
)

-- A command, a barrier and a restore.
abbrev tasks : List Task
tasks =
    Task.command (record { at = 5000; index = 1; term = 1; data_buf = 64; data_len = 3 })
    ∷ Task.entry (record { at = 5400; index = 2; term = 1; data_buf = 64; data_len = 0 })
        RaftLogType.barrier
    ∷ Task.restore 5800 (codes "/snap")
    ∷ []

abbrev restore_call : Slot
restore_call =
    slot_of Call.fsm_restore (Args.filename (codes "/snap")) CallState.pending ClientState.issued 0
      RaftError.success

abbrev three : World
three = record two {
  slots =
      update
        (update (update (λ _. none) 5000 (some (entry RaftLogType.command 3))) 5400
          (some (entry_at 2 RaftLogType.barrier 0)))
        5800 (some restore_call);
  fsm_queue = record no_calls {
    array =
        (CallTag.fsm_apply, 5400)
        ∷ (CallTag.fsm_restore, 5800)
        ∷ (CallTag.invalid, 0)
        ∷ (CallTag.invalid, 0)
        ∷ (CallTag.invalid, 0)
        ∷ (CallTag.invalid, 0)
        ∷ (CallTag.invalid, 0)
        ∷ (CallTag.fsm_apply, 5000)
        ∷ [];
    head = 2;
    tail = 7;
    count = 3;
  };
}

tasks_served_example :
    (w' : World) × (run_fsm_worker address_of summing 3 0 three ≡ ret 3 w')
    × AllServed address_of summing w'.slots 0 tasks
    × Represents 8 w'.fsm_queue []
    × ((p : ℕ) → Mixed.Apart p tasks → w'.slots p ≡ three.slots p)
tasks_served_example =
    tasks_served address_of summing three 0 tasks
      (record {
        storage = refl;
        small = omega arith;
        tail_in = omega arith;
        counted = refl;
        fits = omega arith;
        head_at = refl;
        held = (refl, (refl, (refl, tt)));
      })
      refl
      (
        (
          entry RaftLogType.command 3,
          refl,
          record { free = refl; new = refl; entry = refl; has_data = ne_0 },
        ),
        ((λ e. omega arith), ((λ e. omega arith), tt)),
        (
          (entry_at 2 RaftLogType.barrier 0, refl, (refl, refl, refl, refl)),
          ((λ e. omega arith), tt),
          ((restore_call, refl, (refl, refl, refl, refl)), tt, tt),
        ),
      )

-- The stream cannot be closed without an error.
abbrev full_disk : Sinks
full_disk = record { fopen = λ path w. some 3; call = λ f h sink w. (0, w); fclose = λ sink w. 1 }

abbrev job : SnapshotJob
job = record { slot = 5000; handle = 12; func = 13 }

abbrev snapshot_call : Slot
snapshot_call =
    slot_of Call.fsm_snapshot (Args.filename (codes "/snap")) CallState.pending ClientState.issued 0
      RaftError.success

run_snapshot_job_lem_example :
    (w' : World) × (s' : Slot) × (run_snapshot_job full_disk job (holding 5000 snapshot_call)
      ≡ ret tt w')
    × (w'.slots 5000 ≡ some s')
    × (s'.state ≡ (
        if written full_disk job (some 3) (holding 5000 snapshot_call)
        then CallState.success
        else CallState.error))
    × (s'.error ≡ (
        if written full_disk job (some 3) (holding 5000 snapshot_call)
        then RaftError.success
        else RaftError.other))
run_snapshot_job_lem_example =
    run_snapshot_job_lem full_disk job (holding 5000 snapshot_call) snapshot_call (codes "/snap")
      refl refl refl refl (λ sink v. refl)

-- Stopped once, then killed by signal 9 in a shutdown.
abbrev killed : Flags
killed = record { shutdown_requested = true; raft_killed = true }

watch_raft_proc_lem_example :
    watch_raft_proc 77
      (stops ((killed, 77, 19) ∷ []) ++ (killed, Waited.child 77 (Status.signaled 9)) ∷ [])
    ≡ (if is_wanted killed (Status.signaled 9) then Verdict.returns else Verdict.exits 1)
watch_raft_proc_lem_example =
    watch_raft_proc_lem 77 77 ((killed, 77, 19) ∷ []) killed (Status.signaled 9) [] refl
