-- ===== src/Example/Program.antt =====
-- The main program of raft_client.c.
use libraft.Prelude.{ℕ, zero, suc, Bool, true, not, List, [], Option, none, some, if◌then◌else◌}
use libraft.Slot.{is_success}
use libraft.Config.{RaftConfig, default_config}
use libraft.World.{World, blocked, fault, M, pure, ◌>>=◌, ◌>>◌, branch, given}
use libraft.Future.{raft_future_wait, raft_future_get_stats}
use libraft.Client.{raft_stats, raft_shutdown, raft_is_leader}
use libraft.Printing.{Tokenizer, Printed, raft_print_stats}
use libraft.Example.Options.{Flag, Settings, initial, Code, Parsed, parse_opts}
use libraft.Example.Table.{print_help}
use libraft.Example.Commands.{Line, run_auto, run_interactive}

-- What `main` does before `raft_init`: it goes on with a configuration, or it returns a number with
-- the help printed or not, or its process ends by a failed assertion or a fault. With `logs_null` it
-- has called `zlog_error` for a flag while `cat` is still a null pointer, which zlog is left to deal
-- with; if that returns, `main` prints the text and returns the number.
pub data Start : Type 0 where
  goes_on : RaftConfig → Settings → Start
  logs_null : ℕ → ℕ → List ℕ → Start
  returns : ℕ → List ℕ → Start
  ends : Start

abbrev pub with_help : ℕ → Option (List ℕ) → Start
with_help rc none = Start.ends
with_help rc (some text) = Start.returns rc text

abbrev pub logged : ℕ → Start → Start
logged c (Start.returns rc text) = Start.logs_null c rc text
logged c start = start

-- The switch on what the first `parse_opts` returns.
abbrev pub after_parse : List ℕ → Parsed → Start
after_parse program (Parsed.returns Code.fine config s) = Start.goes_on config s
after_parse program (Parsed.returns Code.bad_arguments config s) = with_help 2 (print_help program)
after_parse program (Parsed.returns (Code.unexpected c) config s) =
    logged c (with_help 2 (print_help program))
after_parse program (Parsed.returns Code.internal_error config s) = Start.returns 1 []
after_parse program (Parsed.returns Code.help config s) = with_help 0 (print_help program)
after_parse program Parsed.aborts = Start.ends
after_parse program Parsed.overruns = Start.ends
after_parse program Parsed.faults = Start.ends

unfoldable pub main_start : List ℕ → Bool → List Flag → RaftConfig → Start
main_start program allocates flags junk =
    after_parse program (parse_opts allocates flags (default_config junk) initial)

-- The settings after the second `parse_opts`, which follows `raft_init`, with `cat` set; `none` if it
-- ends the process.
unfoldable pub parse_again : Bool → List Flag → RaftConfig → Settings → Option Settings
parse_again allocates flags config s = elim (parse_opts allocates flags config s) [
  | Parsed.returns rc config' s' ↦ some s'
  | Parsed.aborts ↦ none
  | Parsed.overruns ↦ none
  | Parsed.faults ↦ none
]

-- `env`, `heap`, `sleep`, `slot`, `snap` and `buffer` are as in Commands; `text_at` is the text at an
-- address.
module _ (env : ℕ → World → World) (heap : World → ℕ → Option ℕ) (sleep : World → World)
    (slot snap buffer : ℕ → ℕ) where
  -- `while (! raft_is_leader()) sleep(1);` for a number of looks.
  unfoldable pub wait_to_lead : ℕ → M (Unit {0})
  wait_to_lead zero w = blocked w
  wait_to_lead (suc looks) w =
      (do leads ← raft_is_leader; branch leads (pure tt) (λ v. wait_to_lead looks (sleep v))) w

  -- What `main` does between `raft_init` and `raft_cleanup`: the number that it returns, where 0
  -- stands for going on to `raft_cleanup`, and what it prints.
  unfoldable pub main_serve :
      (ℕ → ℕ)
      → Tokenizer
      → (ℕ → List ℕ)
      → ℕ
      → Settings
      → (ℕ → List ℕ)
      → List (List ℕ)
      → ℕ × ℕ
      → M (ℕ × List Line × Option Printed)
  unfolding run_auto run_interactive wait_to_lead
  main_serve address_of jsmn_parse text_at looks s junk lines (stats_slot, shutdown_slot) = do
    wait_to_lead looks
    out ←
        branch s.interactive (run_interactive env heap sleep slot snap buffer junk 0 lines)
          (run_auto env heap sleep slot snap buffer s.snapshot_period s.runs 1)
    sf ← raft_stats stats_slot
    r ← raft_future_get_stats env address_of sf true
    branch (not (is_success r.0)) (pure (1, out, none)) (
        given r.1
          (λ stats. do
            shut ← raft_shutdown shutdown_slot
            err ← raft_future_wait env shut
            pure (
              if is_success err then 0 else 1,
              out,
              some (raft_print_stats jsmn_parse (some (text_at stats))),
            ))
          (λ w. fault w))
