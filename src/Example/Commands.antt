-- ===== src/Example/Commands.antt =====
-- What the example client does while it leads: it sends commands and asks for snapshots.
use libraft.Prelude.{
  ℕ, zero, suc, ◌+◌, ◌%◌, Bool, true, false, ◌&&◌, List, [], ◌∷◌, ◌++◌, Option, none, some, ◌==◌,
  leb, if◌then◌else◌,
}
use libraft.Text.{codes, strncpy}
use libraft.Errors.{RaftError}
use libraft.Slot.{is_success}
use libraft.World.{
  World, ret, aborted, fault, M, pure, ◌>>=◌, ◌>>◌, branch, given, assert, free_raft_buffer,
  alloc_raft_buffer,
}
use libraft.Future.{raft_future_dispose, nonzero, raft_future_wait, raft_future_get_fsm_reply}
use libraft.Client.{raft_apply, raft_snapshot}
use libraft.Example.Machine.{digits}

abbrev pub bufsize : ℕ
bufsize = 256

-- How a command ends: the count that is printed and the address that is given to `free`, or the
-- error that is printed with `raft_err_msg`.
pub data Report : Type 0 where
  letter_count : ℕ → ℕ → Report
  raft_error : RaftError → Report

-- What a round prints.
pub data Line : Type 0 where
  command : Report → Line
  snapshot : Bool → Line

-- `snprintf(buf, BUFSIZE, "Raft command #%d", i)`; the text always fits.
unfoldable pub command_text : ℕ → List ℕ
command_text i = codes "Raft command #" ++ digits 9 i

-- What a line typed in is taken for; a command is the buffer that is sent.
pub data Choice : Type 0 where
  take_a_snapshot : Choice
  quit : Choice
  send : List ℕ → Choice

-- `*nl = '\0'` at the first newline, if there is one, and what `line` is as a string then.
unfoldable pub typed : List ℕ → List ℕ
typed [] = []
typed (c ∷ cs) = let rest = typed cs in if c == 10 then [] else if c == 0 then [] else c ∷ rest

abbrev lower : ℕ → ℕ
lower c = if leb b'A' c && leb c b'Z' then c + 32 else c

-- `strncasecmp` with a text of one letter.
abbrev is_letter : ℕ → List ℕ → Bool
is_letter c (d ∷ []) = lower c == lower d
is_letter c _ = false

-- `junk` is what the new buffer holds before it is written.
unfoldable pub choose : List ℕ → List ℕ → Choice
choose junk line =
    let text = typed line in
    if is_letter b'S' text
    then Choice.take_a_snapshot
    else if is_letter b'Q' text
    then Choice.quit
    else Choice.send (strncpy junk text 255)

-- `heap w` is the memory that the state machine has got from `malloc` by the time of `w`, `sleep`
-- what the others do while the program sleeps. `slot`, `snap` and `buffer` give the addresses that the
-- allocators pick in each round.
module _ (env : ℕ → World → World) (heap : World → ℕ → Option ℕ) (sleep : World → World) where
  abbrev reply_count : Option ℕ → M Report
  reply_count none w = aborted w
  reply_count (some p) w =
      (do assert (nonzero p); given (heap w p) (λ n. pure (Report.letter_count n p)) (λ v. fault v))
        w

  unfoldable pub send_command : ℕ → ℕ → M Report
  send_command p buf = do
    f ← raft_apply p buf bufsize 0
    err ← raft_future_wait env f
    report ←
        branch (is_success err) (do r ← raft_future_get_fsm_reply env f true; reply_count r.1)
          (pure (Report.raft_error err))
    raft_future_dispose f
    free_raft_buffer buf
    pure report

  -- Whether it is printed as complete.
  unfoldable pub take_snapshot : ℕ → M Bool
  take_snapshot p = do
    f ← raft_snapshot p
    err ← raft_future_wait env f
    raft_future_dispose f
    pure (is_success err)

  module _ (slot snap buffer : ℕ → ℕ) where
    abbrev sleeps : M (Unit {0})
    sleeps w = ret tt (sleep w)

    abbrev snapshots_at : ℕ → ℕ → M (List Line)
    snapshots_at period i =
        branch (nonzero period && i % period == 0)
          (do done ← take_snapshot (snap i); pure (Line.snapshot done ∷ [])) (pure [])

    -- The rounds from `i` on. As long as `runs` is less than 2^31 the `int` does not overflow.
    unfoldable pub run_auto : ℕ → ℕ → ℕ → M (List Line)
    unfolding send_command take_snapshot
    run_auto period zero i = pure []
    run_auto period (suc left) i = do
      buf ← alloc_raft_buffer (buffer i)
      report ← send_command (slot i) buf
      sleeps
      taken ← snapshots_at period i
      later ← run_auto period left (i + 1)
      pure (Line.command report ∷ taken ++ later)

    -- The lines that `fgets` gives; it gives none at the end.
    unfoldable pub run_interactive : (ℕ → List ℕ) → ℕ → List (List ℕ) → M (List Line)
    unfolding send_command take_snapshot
    run_interactive junk i [] = pure []
    run_interactive junk i (line ∷ lines) = elim (choose (junk i) line) [
      | Choice.quit ↦ pure []
      | Choice.take_a_snapshot ↦ do
        done ← take_snapshot (snap i)
        later ← run_interactive junk (i + 1) lines
        pure (Line.snapshot done ∷ later)
      | Choice.send text ↦ do
        buf ← alloc_raft_buffer (buffer i)
        report ← send_command (slot i) buf
        later ← run_interactive junk (i + 1) lines
        pure (Line.command report ∷ later)
    ]
