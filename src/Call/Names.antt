-- ===== src/Call/Names.antt =====
-- The name of every tag, of those that belong to a call and of all other bytes.
use Prim.Native.String.{String}
use text.Mathlib.Text.{◌==◌ as str_eq}
use text.Mathlib.TextEquality.{eq_iff}
use libraft.Prelude.{
  passes_below, passes_below_lem, Bool, true, false, ℕ, ◌≡◌, ◌<◌, refl, ap, List, [], ◌∷◌, Option,
  none, some, ◌==◌, if◌then◌else◌,
}
use libraft.Call.{Call, tag, tag_code, calls, spelling, tag_name}

-- The name that a list of calls gives a code.
abbrev pub name_among : List Call → ℕ → String
name_among [] code = "*invalid*"
name_among (c ∷ cs) code = if tag_code (tag c) == code then spelling c else name_among cs code

same_text : Option String → String → Bool
same_text none t = false
same_text (some s) t = str_eq s t

same_text-eq : (o : Option String) (t : String) → same_text o t ≡ true → o ≡ some t
unfolding same_text
same_text-eq none t h = cc
same_text-eq (some s) t h = ap some ((eq_iff s t).0 h)

same_name : ℕ → Bool
same_name code = same_text (tag_name code) (name_among calls code)

same_names : passes_below same_name 256 ≡ true
unfolding same_name same_text passes_below tag_name
same_names = refl

same_name-eq : (code : ℕ) → same_name code ≡ true → tag_name code ≡ some (name_among calls code)
unfolding same_name
same_name-eq code h = same_text-eq (tag_name code) (name_among calls code) h

-- Every byte has a name: a tag of a call the call's own, any other byte "*invalid*", also the tags
-- Invalid and SetPeers, which no call has.
pub tag_name_lem : (code : ℕ) → code < 256 → tag_name code ≡ some (name_among calls code)
tag_name_lem code h = same_name-eq code (passes_below_lem same_name 256 code h same_names)
