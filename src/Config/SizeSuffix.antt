-- ===== src/Config/SizeSuffix.antt =====
-- What `parse_size` makes of digits and a suffix.
use libraft.Prelude.{
  ℕ, ◌+◌, ◌-◌, ◌*◌, ◌%◌, ◌^◌, ◌≡◌, refl, true, false, ◌||◌, List, [], ◌∷◌, ◌++◌, ◌==◌,
  if◌then◌else◌, min, arith,
}
use libraft.Config.Size.{word64, is_digit, scan, head_is_digit, strtoul, scale, parse_size}

abbrev pub Digits : List ℕ → Type 0
Digits [] = Unit
Digits (c ∷ s) = (is_digit c ≡ true) × Digits s

-- The number that digits after those of `n` stand for.
abbrev pub value_from : ℕ → List ℕ → ℕ
value_from n [] = n
value_from n (c ∷ s) = value_from (n * 10 + (c - b'0')) s

abbrev pub factor : List ℕ → ℕ
factor [] = 1
factor (c ∷ rest) =
    if c == b'k' || c == b'K'
    then 2 ^ 10
    else if c == b'm' || c == b'M'
    then 2 ^ 20
    else if c == b'g' || c == b'G'
    then 2 ^ 30
    else 1

scan-append :
    (s rest : List ℕ) (n : ℕ)
    → Digits s
    → head_is_digit rest ≡ false
    → scan (s ++ rest) n ≡ (value_from n s, rest)
unfolding scan
scan-append [] [] n d h = refl
scan-append [] (c ∷ rest) n d h = ground arith
scan-append (c ∷ s) rest n d h = rw d.0 (scan-append s rest (n * 10 + (c - b'0')) d.1 h)

scale-factor :
    (coeff : ℕ) (rest : List ℕ)
    → coeff ≡ coeff % word64
    → scale coeff rest ≡ (coeff * factor rest) % word64
unfolding scale
scale-factor coeff [] h = ground arith
scale-factor coeff (c ∷ rest) h = ground arith

pub strtoul-append :
    (c : ℕ) (s rest : List ℕ)
    → Digits (c ∷ s)
    → head_is_digit rest ≡ false
    → strtoul (c ∷ s ++ rest) ≡ (min (value_from 0 (c ∷ s)) (word64 - 1), rest)
unfolding strtoul
strtoul-append c s rest d h = ground (arith, scan-append (c ∷ s) rest 0 d h)

-- Digits and a rest that begins with no digit: the number, at most 2^64 - 1, times 1024, 1024^2 or
-- 1024^3 if the rest begins with k, m or g in either case, taken in 64 bits. Nothing after that
-- first letter counts, and any other rest is as good as none.
pub parse_size-append :
    (c : ℕ) (s rest : List ℕ)
    → Digits (c ∷ s)
    → head_is_digit rest ≡ false
    → parse_size (c ∷ s ++ rest) ≡ (min (value_from 0 (c ∷ s)) (word64 - 1) * factor rest) % word64
unfolding parse_size
parse_size-append c s rest d h = ground (
  arith,
  strtoul-append c s rest d h,
  scale-factor (min (value_from 0 (c ∷ s)) (word64 - 1)) rest,
)
