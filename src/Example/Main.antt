-- ===== src/Example/Main.antt =====
-- The whole of `main` of raft_client.c: its start, the library's start, what it serves, and the
-- library's end.
use libraft.Prelude.{ℕ, zero, suc, ◌≡◌, Bool, true, ◌⊎◌, List, Option, none, some}
use libraft.Config.{RaftConfig}
use libraft.World.{World, Outcome, ret}
use libraft.Printing.{Tokenizer, Printed, raft_print_stats}
use libraft.Process.{Verdict}
use libraft.Fsm.{RaftFsm, Place}
use libraft.Snapshots.{Sinks, Worker}
use libraft.Shutdown.{Threads, raft_cleanup}
use libraft.Startup.{System, Init, Client, raft_init}
use libraft.Example.Options.{Flag}
use libraft.Example.Commands.{Line}
use libraft.Example.Program.{Start, main_start, parse_again, main_serve}

-- How the process ends: `main` returns a number, having printed the help, perhaps after a call of
-- `zlog_error` with a null category, if that returns (`logs_null`), or these lines and
-- statistics with the world that is left; or it does not return, but for `exit(1)`, a failed
-- assertion, a fault, an exception that is not caught, an endless wait, or as the child of a fork.
pub data Ran : Type 0 where
  helps : ℕ → List ℕ → Ran
  logs_null : ℕ → ℕ → List ℕ → Ran
  served : ℕ → List Line → Option Printed → World → Ran
  dies : Ran

-- `served` by the code that `main_serve` gives and, if that is 0, by `raft_cleanup`.
abbrev pub cleaned_up : List Line → Option Printed → {A : Type 0} → Outcome A → Ran
cleaned_up lines out (ret a w) = Ran.served 0 lines out w
cleaned_up lines out _ = Ran.dies

-- The state machine of the client, what it keeps, and the threads of the library, with the place of the
-- FSM worker and the backlog of the collector, are handed to `raft_cleanup` as they are by then.
module _ {S : Type 0} (address_of : ℕ → ℕ) (fsm : RaftFsm S) (sinks : Sinks)
    (env : ℕ → World → World) (heap : World → ℕ → Option ℕ) (sleep : World → World)
    (slot snap buffer : ℕ → ℕ) (jsmn_parse : Tokenizer) (text_at : ℕ → List ℕ) where
  abbrev pub after_serve :
      Place
      → ℕ
      → List ℕ
      → List (Bool × Bool)
      → Verdict
      → S
      → Worker
      → Threads
      → Outcome (ℕ × List Line × Option Printed)
      → Ran
  after_serve place rounds backlog readings verdict st k t (ret (zero, lines, out) w) =
      cleaned_up lines out
        (raft_cleanup address_of fsm sinks place rounds backlog readings verdict st k t w)
  after_serve place rounds backlog readings verdict st k t (ret (suc rc, lines, out) w) =
      Ran.served (suc rc) lines out w
  after_serve place rounds backlog readings verdict st k t _ = Ran.dies

  -- `flags` and `again` are what the two runs over the command line find, `config_junk` what the
  -- variable `config` holds at first; the other arguments are those of `raft_init`, `main_serve` and
  -- `raft_cleanup`.
  unfoldable pub main :
      List ℕ
      → Bool
      → List Flag
      → List Flag
      → RaftConfig
      → System
      → Client
      → World
      → ℕ
      → (ℕ → List ℕ)
      → List (List ℕ)
      → ℕ × ℕ
      → Place
      → ℕ
      → List ℕ
      → List (Bool × Bool)
      → Verdict
      → S
      → Worker
      → Ran
  main program allocates flags again config_junk sys client w looks junk typed at place rounds
        backlog readings verdict st k =
      elim (main_start program allocates flags config_junk) [
        | Start.ends ↦ Ran.dies
        | Start.returns rc text ↦ Ran.helps rc text
        | Start.logs_null c rc text ↦ Ran.logs_null c rc text
        | Start.goes_on config s ↦ elim (raft_init sys config_junk (some config) client w) [
          | Init.ready (pid, client', w', shared) ↦ elim (parse_again allocates again config s) [
            | none ↦ Ran.dies
            | some s' ↦ after_serve place rounds backlog readings verdict st k client'.threads (
                main_serve env heap sleep slot snap buffer address_of jsmn_parse text_at looks s'
                  junk typed at w')
          ]
          | _ ↦ Ran.dies
        ]
      ]

  -- With 1 the library is left running; with 0 the statistics are printed, and the library's queues
  -- are closed and no call is left.
  abbrev pub Ended : ℕ → Option Printed → World → Type 0
  Ended rc out w =
      (rc ≡ 1)
      ⊎ ((rc ≡ 0)
          × ((handle : ℕ) × (out
                ≡ some (raft_print_stats jsmn_parse (some (text_at (address_of handle))))))
          × (w.api_queue.closed ≡ true)
          × (w.fsm_queue.closed ≡ true)
          × (w.orphaned_calls.closed ≡ true)
          × ((p : ℕ) → w.slots p ≡ none))
