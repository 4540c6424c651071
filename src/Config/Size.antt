-- ===== src/Config/Size.antt =====
-- `parse_size` of config.cc, with the C library's `strtoul` and `atoi` in base ten for 64-bit longs.
use libraft.Prelude.{
  ℕ, ◌+◌, ◌-◌, ◌*◌, ◌%◌, ◌^◌, Bool, true, false, ◌&&◌, ◌||◌, List, [], ◌∷◌, ltb, leb, ◌==◌,
  if◌then◌else◌,
}

abbrev pub word64 : ℕ
word64 = 2 ^ 64

abbrev pub is_digit : ℕ → Bool
is_digit c = leb b'0' c && leb c b'9'

abbrev is_space : ℕ → Bool
is_space c = c == 32 || leb 9 c && leb c 13

unfoldable pub skip_space : List ℕ → List ℕ
skip_space [] = []
skip_space (c ∷ s) = let rest = skip_space s in if is_space c then rest else c ∷ s

-- The number of a run of digits after those that gave `n`, and what follows the run.
unfoldable pub scan : List ℕ → ℕ → ℕ × List ℕ
scan [] n = (n, [])
scan (c ∷ s) n = let rest = scan s (n * 10 + (c - b'0')) in if is_digit c then rest else (n, c ∷ s)

-- A sign, then the rest; `true` is a minus.
unfoldable pub sign : List ℕ → Bool × List ℕ
sign [] = (false, [])
sign (c ∷ s) = if c == b'-' then (true, s) else if c == b'+' then (false, s) else (false, c ∷ s)

abbrev pub head_is_digit : List ℕ → Bool
head_is_digit [] = false
head_is_digit (c ∷ s) = is_digit c

-- Too large a number gives ULONG_MAX; a minus negates in 64 bits. Without digits nothing is read.
unfoldable pub strtoul : List ℕ → ℕ × List ℕ
unfolding skip_space sign scan
strtoul spec =
    let (minus, s) = sign (skip_space spec) in
    let (n, rest) = scan s 0 in
    if head_is_digit s
    then if ltb (word64 - 1) n
      then (word64 - 1, rest)
      else if minus
      then ((word64 - n) % word64, rest)
      else (n, rest)
    else (0, spec)

-- The `long` behind `atoi`, in 64 bits: too large or small a number gives the nearest.
unfoldable pub strtol_bits : List ℕ → ℕ
unfolding skip_space sign scan
strtol_bits spec =
    let (minus, s) = sign (skip_space spec) in
    let (n, rest) = scan s 0 in
    if head_is_digit s
    then if minus
      then if ltb (2 ^ 63) n then 2 ^ 63 else (word64 - n) % word64
      else if ltb (2 ^ 63 - 1) n
      then 2 ^ 63 - 1
      else n
    else 0

-- `(uint16_t) atoi(arg)`
unfoldable pub port_of : List ℕ → ℕ
port_of arg = strtol_bits arg % 2 ^ 16

abbrev pub mul64 : ℕ → ℕ → ℕ
mul64 a b = (a * b) % word64

-- The switch on `*endp`; the other cases log an error.
unfoldable pub scale : ℕ → List ℕ → ℕ
scale coeff [] = coeff
scale coeff (c ∷ rest) =
    if c == b'k' || c == b'K'
    then mul64 coeff 1024
    else if c == b'm' || c == b'M'
    then mul64 (mul64 coeff 1024) 1024
    else if c == b'g' || c == b'G'
    then mul64 (mul64 (mul64 coeff 1024) 1024) 1024
    else coeff

unfoldable pub parse_size : List ℕ → ℕ
unfolding strtoul scale
parse_size spec = let (coeff, endp) = strtoul spec in scale coeff endp
