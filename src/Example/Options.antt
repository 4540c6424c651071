-- ===== src/Example/Options.antt =====
-- The command line of raft_client.c.
use libraft.Prelude.{
  ℕ, ◌*◌, ◌/◌, ◌%◌, ◌^◌, Bool, true, false, List, [], ◌∷◌, Option, none, some, ◌==◌, ◌||◌,
  if◌then◌else◌,
}
use libraft.Config.{RaftConfig}
use libraft.Config.Size.{strtoul}
use libraft.Config.Options
use libraft.Config.Options.{raft_apply_option, is_valid}
use libraft.Example.Table.{Merged, merge_opts, long_opts, raft_getopt_long_opts}

-- The client's own settings.
pub record Settings : Type 0 where
  pub runs : ℕ
  pub snapshot_period : ℕ
  pub delay_sec : ℕ
  pub delay_nsec : ℕ
  pub interactive : Bool

abbrev pub initial : Settings
initial = record {
  runs = 20;
  snapshot_period = 0;
  delay_sec = 1;
  delay_nsec = 0;
  interactive = false;
}

-- What a call of `getopt_long` returns, and `optarg`; the end of the list is -1.
pub record Flag : Type 0 where
  pub c : ℕ
  pub optarg : Option (List ℕ)

-- The codes that `main` tells apart: 0, -1, -2, -3. `unexpected` is a -1 before which `zlog_error` was
-- called, through the category `cat`, with this flag and with an argument of the command line.
pub data Code : Type 0 where
  fine bad_arguments internal_error help : Code
  unexpected : ℕ → Code

-- `faults` is the use of a null `optarg`.
pub data Parsed : Type 0 where
  returns : Code → RaftConfig → Settings → Parsed
  aborts : Parsed
  overruns : Parsed
  faults : Parsed

-- The delay from a number of microseconds.
abbrev pub with_wait : Settings → ℕ → Settings
with_wait s usec = record s { delay_sec = usec / 1000000; delay_nsec = usec % 1000000 * 1000 }

-- How a round of the loop goes on: with a configuration and settings, out of the loop with a code,
-- by a failed assertion, or by the use of a null `optarg`.
pub data Step : Type 0 where
  goes_on : RaftConfig → Settings → Step
  ends : Code → Step
  aborts : Step
  faults : Step

abbrev number_of : RaftConfig → Option (List ℕ) → (ℕ → Settings) → Step
number_of config none f = Step.faults
number_of config (some arg) f = Step.goes_on config (f (strtoul arg).0)

-- The switch on a flag that is not the library's.
unfoldable pub switch : RaftConfig → Settings → ℕ → Option (List ℕ) → Step
switch config s c optarg =
    if c == b'n'
    then number_of config optarg (λ n. record s { runs = n % 2 ^ 32 })
    else if c == b's'
    then number_of config optarg (λ n. record s { snapshot_period = n % 2 ^ 32 })
    else if c == b'w'
    then number_of config optarg (with_wait s)
    else if c == b'i'
    then Step.goes_on config (record s { interactive = true })
    else if c == b'h'
    then Step.ends Code.help
    else if c == b':' || c == b'?'
    then Step.ends Code.bad_arguments
    else Step.ends (Code.unexpected c)

-- What the library's `raft_apply_option` does with the configuration; its result is not looked at.
abbrev pub applied : RaftConfig → Settings → Options.Outcome → Step
applied config s (Options.rejected rc) = Step.goes_on config s
applied config s (Options.ran (Options.returned rc config')) = Step.goes_on config' s
applied config s (Options.ran Options.aborted) = Step.aborts

unfoldable pub parse_step : RaftConfig → Settings → Flag → Step
unfolding switch is_valid
parse_step config s f =
    if is_valid f.c
    then applied config s (raft_apply_option (some config) f.c f.optarg)
    else switch config s f.c f.optarg

abbrev pub onward : Step → RaftConfig → Settings → (RaftConfig → Settings → Parsed) → Parsed
onward (Step.goes_on config' s') config s k = k config' s'
onward (Step.ends rc) config s k = Parsed.returns rc config s
onward Step.aborts config s k = Parsed.aborts
onward Step.faults config s k = Parsed.faults

unfoldable pub parse_flags : List Flag → RaftConfig → Settings → Parsed
unfolding parse_step
parse_flags [] config s = Parsed.returns Code.fine config s
parse_flags (f ∷ fs) config s = onward (parse_step config s f) config s (parse_flags fs)

unfoldable pub parse_opts : Bool → List Flag → RaftConfig → Settings → Parsed
unfolding merge_opts parse_flags
parse_opts allocates flags config s = elim (merge_opts allocates long_opts raft_getopt_long_opts) [
  | Merged.failed ↦ Parsed.returns Code.internal_error config s
  | Merged.aborts ↦ Parsed.aborts
  | Merged.overruns ↦ Parsed.overruns
  | Merged.merged combined ↦ parse_flags flags config s
]
