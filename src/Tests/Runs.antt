-- ===== src/Tests/Runs.antt =====
-- A run of the example client's main program.
use libraft.Prelude.{ℕ, true, false, List, [], ◌∷◌, Option, none, some, update}
use libraft.Text.{codes}
use libraft.Errors.{RaftError}
use libraft.Slot.{Slot, CallState}
use libraft.World.{World}
use libraft.Printing.{Tokenizer}
use libraft.Example.Options.{Flag}
use libraft.Tests.Samples.{no_calls}

-- Raft answers every call with 8192, where the count 7 is, and keeps its queue empty.
abbrev answered : Slot → Slot
answered s = record s {
  held = false;
  state = CallState.success;
  error = RaftError.success;
  retval = 8192;
}

abbrev env : ℕ → World → World
env p w = record w {
  slots = update w.slots p (elim (w.slots p) [ none ↦ none | some s ↦ some (answered s) ]);
  api_queue = no_calls;
}

abbrev heap : World → ℕ → Option ℕ
heap w a = some 7

-- The others make the client lead while it sleeps for the first time.
abbrev sleep : World → World
sleep w = record w { is_leader = true }

abbrev at_5000 : ℕ → ℕ
at_5000 i = 5000

abbrev at_6000 : ℕ → ℕ
at_6000 i = 6000

-- Two rounds, with a snapshot in the second.
abbrev two_rounds : List Flag
two_rounds =
    record { c = b'n'; optarg = some (codes "2") }
    ∷ record { c = b's'; optarg = some (codes "2") }
    ∷ []

abbrev no_tokens : Tokenizer
no_tokens text = (none, [])

abbrev text_at : ℕ → List ℕ
text_at a = codes "{}"
