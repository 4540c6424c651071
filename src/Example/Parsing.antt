-- ===== src/Example/Parsing.antt =====
-- What the example client's command line sets.
use libraft.Prelude.{
  ◌≡◌, ◌≢◌, refl, sym, subst, ℕ, ◌^◌, ◌<◌, ◌==◌, ◌||◌, Bool, true, false, List, [], ◌∷◌, ◌++◌,
  Option, none, some, arith, if◌then◌else◌,
}
use libraft.Config.{RaftConfig}
use libraft.Config.Options.{Outcome, rejected, ran, returned, aborted, is_valid, raft_apply_option}
use libraft.Example.Options.{
  Flag, Settings, Code, Parsed, Step, onward, applied, switch, parse_step, parse_flags, parse_opts,
}

-- The numbers fit their types, and a timespec holds less than a second of nanoseconds.
pub record Sound (s : Settings) : Type 0 where
  pub runs : s.runs < 2 ^ 32
  pub snapshot_period : s.snapshot_period < 2 ^ 32
  pub delay_nsec : s.delay_nsec < 1000000000

abbrev pub StepSound : Step → Type 0
StepSound (Step.goes_on config s) = Sound s
StepSound st = Unit

abbrev pub AllSound : Parsed → Type 0
AllSound (Parsed.returns rc config s) = Sound s
AllSound p = Unit

-- What holds of both branches holds of a conditional.
if_both : (P : Step → Type 0) (b : Bool) (x y : Step) → P x → P y → P (if b then x else y)
if_both P true x y p q = p
if_both P false x y p q = q

switch-Sound :
    (config : RaftConfig) (s : Settings) (c : ℕ) (optarg : Option (List ℕ))
    → Sound s
    → StepSound (switch config s c optarg)
unfolding switch
switch-Sound config s c none h = if_both StepSound (c == b'n') _ _ tt (
    if_both StepSound (c == b's') _ _ tt (
      if_both StepSound (c == b'w') _ _ tt (
        if_both StepSound (c == b'i') _ _
          (record { runs = h.runs; snapshot_period = h.snapshot_period; delay_nsec = h.delay_nsec })
          (if_both StepSound (c == b'h') _ _ tt
            (if_both StepSound (c == b':' || c == b'?') _ _ tt tt)))))
switch-Sound config s c (some arg) h =
    if_both StepSound (c == b'n') _ _
      (record {
        runs = omega arith;
        snapshot_period = h.snapshot_period;
        delay_nsec = h.delay_nsec;
      })
      (if_both StepSound (c == b's') _ _
        (record { runs = h.runs; snapshot_period = omega arith; delay_nsec = h.delay_nsec })
        (if_both StepSound (c == b'w') _ _
          (record { runs = h.runs; snapshot_period = h.snapshot_period; delay_nsec = omega arith })
          (if_both StepSound (c == b'i') _ _
            (record {
              runs = h.runs;
              snapshot_period = h.snapshot_period;
              delay_nsec = h.delay_nsec;
            })
            (if_both StepSound (c == b'h') _ _ tt
              (if_both StepSound (c == b':' || c == b'?') _ _ tt tt)))))

applied-Sound :
    (config : RaftConfig) (s : Settings) (o : Outcome) → Sound s → StepSound (applied config s o)
applied-Sound config s (rejected rc) h = h
applied-Sound config s (ran (returned rc config')) h = h
applied-Sound config s (ran aborted) h = tt

parse_step-Sound :
    (config : RaftConfig) (s : Settings) (f : Flag) → Sound s → StepSound (parse_step config s f)
unfolding parse_step
parse_step-Sound config s f h =
    if_both StepSound (is_valid f.c) _ _
      (applied-Sound config s (raft_apply_option (some config) f.c f.optarg) h)
      (switch-Sound config s f.c f.optarg h)

onward-Sound :
    (st : Step) (config : RaftConfig) (s : Settings) (k : RaftConfig → Settings → Parsed)
    → Sound s
    → StepSound st
    → ((config' : RaftConfig) (s' : Settings) → Sound s' → AllSound (k config' s'))
    → AllSound (onward st config s k)
onward-Sound (Step.goes_on config' s') config s k h g r = r config' s' g
onward-Sound (Step.ends rc) config s k h g r = h
onward-Sound Step.aborts config s k h g r = tt
onward-Sound Step.faults config s k h g r = tt

parse_flags-Sound :
    (fs : List Flag) (config : RaftConfig) (s : Settings)
    → Sound s
    → AllSound (parse_flags fs config s)
unfolding parse_flags
parse_flags-Sound [] config s h = h
parse_flags-Sound (f ∷ fs) config s h =
    onward-Sound (parse_step config s f) config s (parse_flags fs) h (parse_step-Sound config s f h)
      (parse_flags-Sound fs)

-- A parse that goes on.
abbrev pub goes_on : Parsed → (RaftConfig → Settings → Parsed) → Parsed
goes_on (Parsed.returns Code.fine config s) k = k config s
goes_on p k = p

onward-goes_on :
    (st : Step) (config : RaftConfig) (s : Settings) (k k' l : RaftConfig → Settings → Parsed)
    → st ≢ Step.ends Code.fine
    → ((config' : RaftConfig) (s' : Settings) → k config' s' ≡ goes_on (k' config' s') l)
    → onward st config s k ≡ goes_on (onward st config s k') l
onward-goes_on (Step.goes_on config' s') config s k k' l n h = h config' s'
onward-goes_on (Step.ends Code.fine) config s k k' l n h = absurd (n refl)
onward-goes_on (Step.ends Code.help) config s k k' l n h = refl
onward-goes_on (Step.ends Code.bad_arguments) config s k k' l n h = refl
onward-goes_on (Step.ends Code.internal_error) config s k k' l n h = refl
onward-goes_on (Step.ends (Code.unexpected c)) config s k k' l n h = refl
onward-goes_on Step.aborts config s k k' l n h = refl
onward-goes_on Step.faults config s k k' l n h = refl

abbrev NotFine : Step → Type 0
NotFine st = st ≢ Step.ends Code.fine

applied-NotFine : (config : RaftConfig) (s : Settings) (o : Outcome) → NotFine (applied config s o)
applied-NotFine config s (rejected rc) = λ e. cc
applied-NotFine config s (ran (returned rc config')) = λ e. cc
applied-NotFine config s (ran aborted) = λ e. cc

switch-NotFine :
    (config : RaftConfig) (s : Settings) (c : ℕ) (optarg : Option (List ℕ))
    → NotFine (switch config s c optarg)
unfolding switch
switch-NotFine config s c none =
    if_both NotFine (c == b'n') _ _ (λ e. cc)
      (if_both NotFine (c == b's') _ _ (λ e. cc)
        (if_both NotFine (c == b'w') _ _ (λ e. cc)
          (if_both NotFine (c == b'i') _ _ (λ e. cc)
            (if_both NotFine (c == b'h') _ _ (λ e. cc)
              (if_both NotFine (c == b':' || c == b'?') _ _ (λ e. cc) (λ e. cc))))))
switch-NotFine config s c (some arg) =
    if_both NotFine (c == b'n') _ _ (λ e. cc)
      (if_both NotFine (c == b's') _ _ (λ e. cc)
        (if_both NotFine (c == b'w') _ _ (λ e. cc)
          (if_both NotFine (c == b'i') _ _ (λ e. cc)
            (if_both NotFine (c == b'h') _ _ (λ e. cc)
              (if_both NotFine (c == b':' || c == b'?') _ _ (λ e. cc) (λ e. cc))))))

parse_step-ne-fine :
    (config : RaftConfig) (s : Settings) (f : Flag) → parse_step config s f ≢ Step.ends Code.fine
unfolding parse_step
parse_step-ne-fine config s f =
    if_both NotFine (is_valid f.c) _ _
      (applied-NotFine config s (raft_apply_option (some config) f.c f.optarg))
      (switch-NotFine config s f.c f.optarg)

-- Flags one after the other.
pub parse_flags-append :
    (fs gs : List Flag) (config : RaftConfig) (s : Settings)
    → parse_flags (fs ++ gs) config s ≡ goes_on (parse_flags fs config s) (parse_flags gs)
unfolding parse_flags
parse_flags-append [] gs config s = refl
parse_flags-append (f ∷ fs) gs config s =
    onward-goes_on (parse_step config s f) config s (parse_flags (fs ++ gs)) (parse_flags fs)
      (parse_flags gs) (parse_step-ne-fine config s f) (parse_flags-append fs gs)

pub parse_opts_lem :
    (flags : List Flag) (config : RaftConfig) (s : Settings)
    → parse_opts true flags config s ≡ parse_flags flags config s
unfolding parse_opts
parse_opts_lem flags config s = refl

parse_opts_failed :
    (flags : List Flag) (config : RaftConfig) (s : Settings)
    → parse_opts false flags config s ≡ Parsed.returns Code.internal_error config s
unfolding parse_opts
parse_opts_failed flags config s = refl

AllSound-returns :
    (p : Parsed) (rc : Code) (config : RaftConfig) (s : Settings)
    → p ≡ Parsed.returns rc config s
    → AllSound p
    → Sound s
AllSound-returns p rc config s e h = subst AllSound e h

-- Whatever the command line says, and whichever way a parse returns: the numbers of the settings fit
-- their 32 bits, and the delay is less than a second of nanoseconds over its seconds, if that held
-- before.
pub parse_opts-Sound :
    (allocates : Bool) (flags : List Flag) (config config' : RaftConfig) (s s' : Settings)
    (rc : Code)
    → Sound s
    → parse_opts allocates flags config s ≡ Parsed.returns rc config' s'
    → Sound s'
parse_opts-Sound true flags config config' s s' rc h e =
    AllSound-returns (parse_opts true flags config s) rc config' s' e
      (subst AllSound (sym (parse_opts_lem flags config s)) (parse_flags-Sound flags config s h))
parse_opts-Sound false flags config config' s s' rc h e =
    AllSound-returns (parse_opts false flags config s) rc config' s' e
      (subst AllSound (sym (parse_opts_failed flags config s)) h)
