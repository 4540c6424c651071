-- ===== src/Timings.antt =====
-- class Timings of raft_shm: the moments of a call. A time point is a number of nanoseconds.
pub mod Keeps
use libraft.Prelude.{
  ℕ, suc, ◌+◌, ◌-◌, ◌/◌, ◌*◌, Bool, List, [], ◌∷◌, Option, ltb, leb, replicate, take, zero,
  if◌then◌else◌,
}
use libraft.Text.{strncpy, c_str}

pub record Entry : Type 0 where
  pub tag : List ℕ
  pub ts : ℕ

pub record Timings : Type 0 where
  pub n_entries : ℕ
  pub entries : List Entry

abbrev pub max_ent : ℕ
max_ent = 32

-- What `timings()` in a constructor gives.
abbrev pub zero_entry : Entry
zero_entry = record { tag = replicate 20 0; ts = 0 }

abbrev pub zeroed : Timings
zeroed = record { n_entries = 0; entries = replicate max_ent zero_entry }

-- One element of an array changed in place.
unfoldable pub change : ℕ → (Entry → Entry) → List Entry → List Entry
change i f [] = []
change zero f (e ∷ es) = f e ∷ es
change (suc i) f (e ∷ es) = e ∷ change i f es

-- `record(tag, t)`; the one-argument form passes the clock's time.
unfoldable pub record_at : Timings → List ℕ → ℕ → Timings
record_at r tag t =
    if ltb r.n_entries max_ent
    then record {
      n_entries = r.n_entries + 1;
      entries = change r.n_entries (λ e. record { tag = strncpy e.tag tag 19; ts = t }) r.entries;
    }
    else r

-- `Timings(t)` over an array that holds anything.
unfoldable pub started : List Entry → List ℕ → ℕ → Timings
started junk tag t = record_at (record { n_entries = 0; entries = junk }) tag t

-- A span in whole microseconds, rounded towards zero.
pub data Span : Type 0 where
  forth : ℕ → Span
  back : ℕ → Span

unfoldable pub span_us : ℕ → ℕ → Span
span_us from to = if leb from to then forth ((to - from) / 1000) else back ((from - to) / 1000)

pub record Line : Type 0 where
  pub tag : Option (List ℕ)
  pub elapsed : Span
  pub delta : Span

unfoldable pub lines_from : ℕ → ℕ → List Entry → List Line
lines_from start prev [] = []
lines_from start prev (e ∷ es) =
    record { tag = c_str e.tag; elapsed = span_us start e.ts; delta = span_us prev e.ts }
    ∷ lines_from start e.ts es

pub data Printed : Type 0 where
  silent : Printed
  no_timing_data : Printed
  printed : List Line → Printed

-- The argument is `scoreboard->msg_timing`.
unfoldable pub print : Bool → Timings → Printed
print msg_timing r =
    if msg_timing
    then if leb r.n_entries 1 then no_timing_data else elim (take r.n_entries r.entries) [
      | [] ↦ no_timing_data
      | e ∷ es ↦ printed (lines_from e.ts e.ts es)
    ]
    else silent
