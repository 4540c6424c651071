-- ===== src/Text/Copies.antt =====
-- What can be read back from an array that `strncpy(dst, src, sizeof(dst)-1)` has filled.
use libraft.Prelude.{
  ℕ, zero, suc, ◌≤◌, ◌<◌, ◌≡◌, ◌≢◌, refl, ap, List, [], ◌∷◌, ◌++◌, none, some, ltb, ltb→lt,
  Bool-cases, inl, inr, ℕ_discrete, take, drop, replicate, length, arith, append_assoc, ◌==◌,
  if◌then◌else◌,
}
use libraft.Text.{strncpy, c_str}

abbrev pub NoNul : List ℕ → Type 0
NoNul [] = Unit
NoNul (c ∷ cs) = (c ≢ 0) × NoNul cs

c_str-append_nul : (s rest : List ℕ) → NoNul s → c_str (s ++ 0 ∷ rest) ≡ some s
unfolding c_str
c_str-append_nul [] rest h = refl
c_str-append_nul (c ∷ s) rest h = ground (arith, c_str-append_nul s rest h.1)

c_str-append_end : (s : List ℕ) (c : ℕ) → NoNul s → c ≢ 0 → c_str (s ++ c ∷ []) ≡ none
unfolding c_str
c_str-append_end [] c h n = ground arith
c_str-append_end (x ∷ s) c h n = ground (arith, c_str-append_end s c h.1 n)

-- A text that leaves room for a NUL among the `n` copied bytes, padded with `m` NULs.
take_short :
    (n m : ℕ) (s : List ℕ)
    → length s < n
    → 0 < m
    → (rest : List ℕ) × (take n (s ++ replicate m 0) ≡ s ++ 0 ∷ rest)
take_short zero m s h p = absurd (omega arith)
take_short (suc n) zero s h p = absurd (omega arith)
take_short (suc n) (suc m) [] h p = (take n (replicate m 0), refl)
take_short (suc n) (suc m) (c ∷ s) h p =
    let (rest, e) = take_short n (suc m) s (omega arith) p in (rest, ap (◌∷◌ c) e)

take_long : (n : ℕ) (s t : List ℕ) → n ≤ length s → take n (s ++ t) ≡ take n s
take_long zero s t h = refl
take_long (suc n) [] t h = absurd (omega arith)
take_long (suc n) (c ∷ s) t h = ap (◌∷◌ c) (take_long n s t (omega arith))

take-NoNul : (n : ℕ) (s : List ℕ) → NoNul s → NoNul (take n s)
take-NoNul zero s h = tt
take-NoNul (suc n) [] h = tt
take-NoNul (suc n) (c ∷ s) h = (h.0, take-NoNul n s h.1)

pub fits-c_str :
    (junk src : List ℕ) (n : ℕ) → NoNul src → length src < n → c_str (strncpy junk src n) ≡ some src
unfolding strncpy
fits-c_str junk src n h lt =
    let (rest, e) = take_short n n src lt (omega arith) in
    rw (e, append_assoc) (c_str-append_nul src (rest ++ drop n junk) h)

-- A last byte that is or is not a NUL.
last-c_str :
    (s : List ℕ) (z : ℕ) → NoNul s → c_str (s ++ z ∷ []) ≡ (if z == 0 then some s else none)
last-c_str s z h = elim (ℕ_discrete z 0) [
  | yes e ↦ rw e (c_str-append_nul s [] h)
  | no ne ↦ ground (arith, c_str-append_end s z h ne)
]

cut-c_str :
    (junk src : List ℕ) (n z : ℕ)
    → NoNul src
    → n ≤ length src
    → drop n junk ≡ z ∷ []
    → c_str (strncpy junk src n) ≡ (if z == 0 then some (take n src) else none)
unfolding strncpy
cut-c_str junk src n z h le d =
    rw (take_long n src (replicate n 0) le, d) (last-c_str (take n src) z (take-NoNul n src h))

-- In an array whose last byte was `z`, `strncpy` of all but that byte makes the text `src` readable
-- if it is at least one byte shorter than the copy. A longer `src` is cut to the size of the copy
-- if `z` is NUL; if it is not, the array is left without a terminator.
pub strncpy-c_str :
    (junk src : List ℕ) (n z : ℕ)
    → NoNul src
    → drop n junk ≡ z ∷ []
    → c_str (strncpy junk src n)
      ≡ (if ltb (length src) n then some src else if z == 0 then some (take n src) else none)
strncpy-c_str junk src n z h d = elim (Bool-cases (ltb (length src) n)) [
  | inl lt ↦ rw lt (fits-c_str junk src n h (ltb→lt _ _ lt))
  | inr ge ↦ rw ge (cut-c_str junk src n z h (ground arith) d)
]
