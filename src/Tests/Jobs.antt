-- ===== src/Tests/Jobs.antt =====
-- A run of the snapshot thread.
use libraft.Prelude.{◌≡◌, List, [], ◌∷◌, none}
use libraft.Text.{codes}
use libraft.Errors.{RaftError}
use libraft.Call.{Call, Args}
use libraft.Slot.{CallState, ClientState, Slot}
use libraft.World.{World, pure, ◌>>=◌}
use libraft.Snapshots.{SnapshotJob, Sinks, run_snapshot_worker}
use libraft.Snapshots.Order.{hand_over, run_all, queued, hand_over-run_all}
use libraft.Tests.Samples.{ne_0, slot_of, holding_two}

-- No file can be opened.
abbrev no_files : Sinks
no_files = record { fopen = λ path w. none; call = λ f h sink w. (0, w); fclose = λ sink w. 0 }

abbrev snapshot_call : Slot
snapshot_call =
    slot_of Call.fsm_snapshot (Args.filename (codes "/snap")) CallState.pending ClientState.issued 0
      RaftError.success

abbrev jobs : List SnapshotJob
jobs =
    record { slot = 5000; handle = 12; func = 13 }
    ∷ record { slot = 5400; handle = 12; func = 13 }
    ∷ []

abbrev two : World
two = holding_two 5000 snapshot_call 5400 snapshot_call

hand_over-run_all_example :
    (hand_over jobs (queued []) >>= run_snapshot_worker no_files 2) two
    ≡ (run_all no_files jobs >>= λ _. pure (queued [])) two
hand_over-run_all_example =
    hand_over-run_all no_files jobs two ((ne_0, ne_0, ne_0), ((ne_0, ne_0, ne_0), tt))
