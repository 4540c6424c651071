-- ===== src/Tests/Clients.antt =====
-- Runs of the example client.
use libraft.Prelude.{
  get_elem?, ◌*◌, ◌%◌, ℕ, ◌+◌, ◌-◌, ◌^◌, ◌≡◌, refl, true, false, List, [], ◌∷◌, ◌++◌, Option, none,
  some, replicate, length, update, ◌==◌, if◌then◌else◌, arith,
}
use libraft.Text.{codes, strncpy}
use libraft.Errors.{RaftError, RaftLogType}
use libraft.Call.{Call, CallTag, Args}
use libraft.Config.{default_config}
use libraft.Config.Size.{strtoul}
use libraft.Queue.Blocking.{put}
use libraft.Queue.Blocking.Represents.{Represents}
use libraft.Slot.{Slot, CallState, ClientState, new_slot}
use libraft.World.{World, ret, in_shm_bounds, inc}
use libraft.Request.{send_api_request}
use libraft.Future.Disposal.{freed}
use libraft.Future.Results.{seen_in}
use libraft.Client.{raft_apply}
use libraft.Client.Sending.{fresh}
use libraft.Fsm.{run_fsm_worker, fsm_worker_step}
use libraft.Example.Machine.{
  digits, Machine, Source, count_letters, fsm_def, fsm_apply, update_count, write_snapshot,
}
use libraft.Snapshots.{Worker, run_snapshot_worker}
use libraft.Example.Saved.{Next, client_sinks, saved_and_restored}
use libraft.Example.Letters.{Counts, commands_counted, before_nul, letters}
use libraft.Example.Options.{Flag, parse_opts, parse_flags, parse_step, initial, with_wait}
use libraft.Example.Table.{print_help}
use libraft.Example.Program.{Start, main_start}
use libraft.Example.Refused.{runs_refused}
use libraft.Example.Auto.{auto_counted}
use libraft.Fsm.Answers.{Command}
use libraft.Example.Commands.{command_text, Report, send_command, choose, typed, bufsize}
use libraft.Example.Sent.{send_command_answered}
use libraft.Example.Typed.{choose-letters}
use libraft.Tests.Samples.{holding, no_calls, ne_0, world, slot_of, config}
use libraft.Tests.Threads.{commands, two, two-Represents, two-Asked, address_of}

-- Every byte of memory is a letter but the one at 4162, which ends both commands after two letters.
abbrev memory : ℕ → ℕ
memory a = if a == 4162 then 0 else b'a'

abbrev malloc : Machine → ℕ
malloc m = 8192 + m.letter_count

abbrev fopen : List ℕ → Option Source
fopen path = none

-- Two more letters than are left up to 2^32.
abbrev counting : ℕ → Machine
counting n = record {
  letter_count = n;
  cells = λ _. none;
  worker = record { snapshot_queue = record { items = []; closed = false }; joinable = false };
}

abbrev almost : Machine
almost = counting (2 ^ 32 - 3)

commands_counted_example :
    (w' : World) × (m' : Machine) × (run_fsm_worker address_of
        (fsm_def memory malloc 9 fopen)
        2
        almost
        two
      ≡ ret m' w')
    × Counts memory malloc 9 fopen address_of m' w'.slots (2 ^ 32 - 3) commands
    × Represents 8 w'.fsm_queue []
unfolding count_letters fsm_apply update_count
commands_counted_example =
    commands_counted memory malloc 9 fopen address_of two almost commands two-Represents refl
      two-Asked (omega arith) (ne_0, refl, (ne_0, refl, tt))

-- The text of round 1 in a buffer at handle 64, sent with 18 bytes of it.
abbrev text_memory : ℕ → ℕ
text_memory a = elim (get_elem? (command_text 1 ++ replicate 8 0) (a - 4160)) [
  | none ↦ 0
  | some c ↦ c
]

abbrev first_round : List Command
first_round = record { at = 5000; index = 1; term = 1; data_buf = 64; data_len = 18 } ∷ []

abbrev one_entry : Slot
one_entry =
    slot_of Call.fsm_apply (Args.log_entry 1 1 RaftLogType.command 64 18) CallState.pending
      ClientState.issued 0 RaftError.success

abbrev one_queued : World
one_queued = record (holding 5000 one_entry) {
  fsm_queue = record no_calls {
    array = (CallTag.fsm_apply, 5000) ∷ replicate 7 (CallTag.invalid, 0);
    head = 1;
    count = 1;
  };
}

auto_counted_example :
    (w' : World) × (m' : Machine) × (run_fsm_worker address_of
        (fsm_def text_memory malloc 9 fopen)
        1
        almost
        one_queued
      ≡ ret m' w')
    × (m'.letter_count ≡ (2 ^ 32 - 3 + 11 * 1) % 2 ^ 32)
    × Represents 8 w'.fsm_queue []
unfolding count_letters fsm_apply update_count command_text digits
auto_counted_example =
    auto_counted text_memory malloc 9 fopen address_of one_queued almost 1 first_round
      (record {
        storage = refl;
        small = omega arith;
        tail_in = omega arith;
        counted = refl;
        fits = omega arith;
        head_at = refl;
        held = (refl, tt);
      })
      refl
      ((one_entry, refl, record { free = refl; new = refl; entry = refl; has_data = ne_0 }), tt, tt)
      (omega arith) (ne_0, refl, tt) ((0 ∷ 0 ∷ [], refl), tt)

-- One call about a file, queued at 5000.
abbrev file_call : Call → Slot
file_call c =
    slot_of c (Args.filename (codes "/snap")) CallState.pending ClientState.issued 0
      RaftError.success

abbrev one_file : Call → CallTag → World
one_file c tag = record (holding 5000 (file_call c)) {
  fsm_queue = record no_calls {
    array = (tag, 5000) ∷ replicate 7 (CallTag.invalid, 0);
    head = 1;
    count = 1;
  };
}

one_file-Next :
    (c : Call) (tag : CallTag) → Next (one_file c tag) tag 5000 (codes "/snap") (file_call c) []
one_file-Next c tag = record {
  queue = record {
    storage = refl;
    small = omega arith;
    tail_in = omega arith;
    counted = refl;
    fits = omega arith;
    head_at = refl;
    held = (refl, tt);
  };
  opened = refl;
  slot = refl;
  free = refl;
  new = refl;
  args = refl;
}

-- The count of 42 is saved; by the time that it is written the machine counts 50. A client that
-- counts 7 restores it.
abbrev files : List ℕ → List ℕ → Option Source
files text path = some (record { text = text; closes = true })

abbrev counted_on : Machine → Machine
counted_on m = record m { letter_count = 50 }

abbrev saving : World
saving = one_file Call.fsm_snapshot CallTag.fsm_snapshot

abbrev restoring : World
restoring = one_file Call.fsm_restore CallTag.fsm_restore

saved_and_restored_example :
    (m' freed : Machine) × (w' v u' : World) × (k : Worker) × (text : List ℕ) × (s' t' : Slot)
    × (fsm_worker_step address_of (fsm_def memory malloc 9 fopen) (counting 42) saving ≡ ret m' w')
    × (m'.letter_count ≡ 42)
    × (write_snapshot true (8192 + 42) (counted_on m') ≡ some (freed, 0, text))
    × (freed.cells (8192 + 42) ≡ none)
    × (run_snapshot_worker
          (client_sinks (λ path v. some 3) (λ sink v. 0) 9 (counted_on m'))
          1
          m'.worker
          w'
        ≡ ret k v)
    × (k.snapshot_queue ≡ record { items = []; closed = false })
    × (v.slots 5000 ≡ some s')
    × (s'.state ≡ CallState.success)
    × (fsm_worker_step address_of (fsm_def memory malloc 9 (files text)) (counting 7) restoring
        ≡ ret (counting 42) u')
    × (u'.slots 5000 ≡ some t')
    × (t'.state ≡ CallState.success)
saved_and_restored_example =
    saved_and_restored memory malloc 9 address_of fopen files (λ path v. some 3) (λ sink v. 0) 3
      (codes "/snap") 5000 5000 (counting 42) (counting 7) saving restoring
      (file_call Call.fsm_snapshot) (file_call Call.fsm_restore) [] [] (λ v. v) counted_on refl
      (omega arith) ne_0 ne_0 ne_0 refl (one_file-Next Call.fsm_snapshot CallTag.fsm_snapshot)
      (λ v. refl) (λ n. refl) (λ v. (refl, refl))
      (one_file-Next Call.fsm_restore CallTag.fsm_restore) (λ text. refl)

-- A command at 6000, answered with a count of 7 at 8199.
abbrev args : Args
args = Args.apply_args 6000 256 0

abbrev answer : Slot
answer = slot_of Call.apply args CallState.success ClientState.issued 8199 RaftError.success

abbrev env : ℕ → World → World
env p w = record w { slots = update w.slots p (some answer) }

abbrev heap : World → ℕ → Option ℕ
heap w = update (λ _. none) 8199 (some 7)

abbrev entered : World
entered = elim (raft_apply 5000 6000 bufsize 0 world) [ ret p w ↦ w | _ ↦ world ]

abbrev after : World
after = freed (seen_in (env 5000 entered) 5000 answer) 5000

send_command_answered_example :
    send_command env heap (λ w. w) 5000 6000 world
    ≡ ret (Report.letter_count 7 8199) (record after {
      freed_buffers = 6000 ∷ after.freed_buffers;
      stats = record after.stats { buffer_free = inc after.stats.buffer_free };
    })
unfolding in_shm_bounds raft_apply send_api_request new_slot put
send_command_answered_example =
    send_command_answered env heap (λ w. w) 5000 6000 7 world entered (fresh world Call.apply args)
      answer ne_0 refl refl refl refl refl refl refl (λ _. (ne_0, refl))

-- A line of 255 letters with no newline, and a new buffer whose last byte is a letter.
abbrev long_line : List ℕ
long_line = replicate 255 b'a'

abbrev new_buffer : List ℕ
new_buffer = replicate 255 0 ++ b'z' ∷ []

choose-letters_example :
    letters (before_nul (replicate 255 b'a' ++ b'z' ∷ []))
    ≡ letters (typed long_line)
      + (if length (typed long_line) == 255 then letters (b'z' ∷ []) else 0)
unfolding choose typed strncpy
choose-letters_example =
    choose-letters new_buffer long_line (replicate 255 b'a' ++ b'z' ∷ []) b'z' refl refl
      (omega arith)

-- The delay is set, then `--runs=5` is given.
abbrev waits : List Flag
waits = record { c = b'w'; optarg = some (codes "1500000") } ∷ []

runs_refused_example :
    (text : List ℕ) × (print_help (codes "client") ≡ some text)
    × (main_start
          (codes "client")
          true
          (waits ++ record { c = b'r'; optarg = some (codes "5") } ∷ [])
          config
        ≡ Start.logs_null b'r' 2 text)
unfolding parse_opts parse_flags parse_step strtoul
runs_refused_example =
    runs_refused (codes "client") waits [] (record { name = codes "runs"; has_arg = 1; val = b'r' })
      (some (codes "5")) config (default_config config) (with_wait initial 1500000) refl refl
