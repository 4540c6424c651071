-- ===== src/Example/RoundTrip.antt =====
-- The text of a snapshot of raft_client.c: a number as `%u` prints and reads it.
use libraft.Prelude.{
  ◌≡◌, refl, ap, ℕ, zero, suc, ◌+◌, ◌-◌, ◌*◌, ◌/◌, ◌%◌, ◌^◌, ◌<◌, true, false, List, [], ◌∷◌, ◌++◌,
  some, arith, min, sym, subst, ◌∙◌, Bool-cases, inl, inr, ltb,
}
use libraft.Config.Size.{is_digit, head_is_digit, skip_space, sign, word64}
use libraft.Config.SizeSuffix.{Digits, value_from, strtoul-append}
use libraft.Example.Machine.{digits, newline, print_line, scan_unsigned}

Digits-append : (s : List ℕ) (c : ℕ) → Digits s → is_digit c ≡ true → Digits (s ++ c ∷ [])
Digits-append [] c d e = (e, tt)
Digits-append (x ∷ s) c d e = (d.0, Digits-append s c d.1 e)

pub digits-Digits : (k n : ℕ) → Digits (digits k n)
unfolding digits
digits-Digits zero n = (ground arith, tt)
digits-Digits (suc k) n =
    let before : Digits (digits k (n / 10)) = digits-Digits k (n / 10) in
    let last : is_digit (b'0' + n % 10) ≡ true = ground arith in
    ground (arith, Digits-append (digits k (n / 10)) (b'0' + n % 10) before last)

append-first : (s : List ℕ) (c : ℕ) → (d : ℕ) × (r : List ℕ) × (s ++ c ∷ [] ≡ d ∷ r)
append-first [] c = (c, [], refl)
append-first (x ∷ s) c = (x, s ++ c ∷ [], refl)

digits-first : (k n : ℕ) → (d : ℕ) × (r : List ℕ) × (digits k n ≡ d ∷ r)
unfolding digits
digits-first zero n = (b'0' + n % 10, [], refl)
digits-first (suc k) n = elim (Bool-cases (ltb n 10)) [
  | inl e ↦ (b'0' + n, [], ground arith)
  | inr e ↦
      let (d, r, q) = append-first (digits k (n / 10)) (b'0' + n % 10) in (d, r, ground (arith, q))
]

value_from-append :
    (n : ℕ) (s : List ℕ) (c : ℕ) → value_from n (s ++ c ∷ []) ≡ value_from n s * 10 + (c - b'0')
value_from-append n [] c = refl
value_from-append n (d ∷ s) c = value_from-append (n * 10 + (d - b'0')) s c

value-digits : (k n : ℕ) → n < 10 ^ suc k → value_from 0 (digits k n) ≡ n
unfolding digits
value-digits zero n h = omega arith
value-digits (suc k) n h =
    let q : value_from 0 (digits k (n / 10)) ≡ n / 10 = value-digits k (n / 10) (omega arith) in
    ground (arith, q, value_from-append 0 (digits k (n / 10)) (b'0' + n % 10))

scan-Digits :
    (c : ℕ) (s rest : List ℕ)
    → Digits (c ∷ s)
    → head_is_digit rest ≡ false
    → scan_unsigned (c ∷ s ++ rest) ≡ some (min (value_from 0 (c ∷ s)) (word64 - 1) % 2 ^ 32)
unfolding scan_unsigned skip_space sign
scan-Digits c s rest d h = ground (arith, d.0, strtoul-append c s rest d h)

scan_digits :
    (k n : ℕ) → n < 10 ^ suc k → n < 2 ^ 32 → scan_unsigned (digits k n ++ newline ∷ []) ≡ some n
scan_digits k n h small =
    let (d, r, e) = digits-first k n in
    let v : value_from 0 (d ∷ r) ≡ n = ap (value_from 0) (sym e) ∙ value-digits k n h in
    subst (λ s. scan_unsigned (s ++ newline ∷ []) ≡ some n) (sym e)
      (scan-Digits d r (newline ∷ []) (subst Digits e (digits-Digits k n)) refl
        ∙ ap some (ground (arith, v)))

-- What `%u` prints of 32 bits, `%u` reads.
pub scan-print_line : (n : ℕ) → n < 2 ^ 32 → scan_unsigned (print_line n) ≡ some n
unfolding print_line
scan-print_line n h = scan_digits 9 n (omega arith) h
