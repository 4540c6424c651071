-- ===== src/Text.antt =====
-- C strings in arrays of fixed size, as `strncpy` fills them: a text is the bytes before its NUL.
pub mod Copies
use Prim.Native.Char.{code}
use Prim.Native.String.{String}
use libraft.Prelude.{
  ℕ, ◌-◌, List, [], ◌∷◌, ◌++◌, Option, none, some, take, drop, replicate, ◌==◌, if◌then◌else◌,
}

-- The bytes of a literal.
abbrev pub codes : String → List ℕ
codes String.[] = []
codes (String.◌∷◌ c s) = code c ∷ codes s

-- `strncpy(dst, src, n)`: `src` cut after `n` bytes, or padded with NULs up to `n` bytes.
unfoldable pub strncpy : List ℕ → List ℕ → ℕ → List ℕ
strncpy dst src n = take n (src ++ replicate n 0) ++ drop n dst

-- The text that stands in an array; `none` if no byte of it is NUL.
unfoldable pub c_str : List ℕ → Option (List ℕ)
c_str [] = none
c_str (c ∷ cs) =
    let rest = c_str cs in
    if c == 0 then some [] else elim rest [ none ↦ none | some s ↦ some (c ∷ s) ]
