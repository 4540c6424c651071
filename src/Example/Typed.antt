-- ===== src/Example/Typed.antt =====
-- A line typed into the example client, and the letters that its buffer counts.
use libraft.Prelude.{
  Bool, ◌≢◌, ◌≡◌, refl, sym, ap, ap₂, replicate, ◌∙◌, ℕ, ◌+◌, ◌≤◌, ◌<◌, ◌==◌, ℕ_discrete,
  Option-cases, inl, inr, take_prefix, List, [], ◌∷◌, ◌++◌, some, length, drop, arith,
  if◌then◌else◌,
}
use libraft.Text.{strncpy, c_str}
use libraft.Text.Copies.{NoNul, fits-c_str}
use libraft.Example.Letters.{before_nul, letters}
use libraft.Example.Commands.{Choice, choose, typed}

typed-NoNul : (line : List ℕ) → NoNul (typed line)
unfolding typed
typed-NoNul [] = tt
typed-NoNul (c ∷ cs) = ground (arith, typed-NoNul cs)

c_str-before_nul : (b s : List ℕ) → c_str b ≡ some s → before_nul b ≡ s
unfolding c_str
c_str-before_nul [] s e = ground arith
c_str-before_nul (c ∷ cs) s e = elim (Option-cases (c_str cs)) [
  | inl n ↦ ground (arith, n)
  | inr (r, h) ↦ ground (arith, h, c_str-before_nul cs r h)
]

pub letters-append : (s t : List ℕ) → letters (s ++ t) ≡ letters s + letters t
letters-append [] t = omega arith
letters-append (c ∷ s) t = ground (arith, letters-append s t)

pub before_nul-append : (s t : List ℕ) → NoNul s → before_nul (s ++ t) ≡ s ++ before_nul t
before_nul-append [] t n = refl
before_nul-append (c ∷ s) t n = ground (arith, n.0, before_nul-append s t n.1)

-- A text that leaves room for its NUL.
short_letters :
    (junk text : List ℕ) (z : ℕ)
    → NoNul text
    → drop 255 junk ≡ z ∷ []
    → length text < 255
    → letters (before_nul (strncpy junk text 255)) ≡ letters text
short_letters junk text z n d h =
    ap letters (c_str-before_nul (strncpy junk text 255) text (fits-c_str junk text 255 n h))

full_copy :
    (junk text : List ℕ) (n z : ℕ)
    → drop n junk ≡ z ∷ []
    → length text ≡ n
    → strncpy junk text n ≡ text ++ z ∷ []
unfolding strncpy
full_copy junk text n z d h = ap₂ ◌++◌ (take_prefix n text (replicate n 0) h) d

last_letters : (z : ℕ) → letters (before_nul (z ∷ [])) ≡ letters (z ∷ [])
last_letters z = ground arith

-- A text that fills the copy.
full_letters :
    (junk text : List ℕ) (z : ℕ)
    → NoNul text
    → drop 255 junk ≡ z ∷ []
    → length text ≡ 255
    → letters (before_nul (strncpy junk text 255)) ≡ letters text + letters (z ∷ [])
full_letters junk text z n d h =
    ap (λ b. letters (before_nul b)) (full_copy junk text 255 z d h)
    ∙ ap letters (before_nul-append text (z ∷ []) n)
    ∙ letters-append text (before_nul (z ∷ []))
    ∙ ap (λ k. letters text + k) (last_letters z)

when_full : (n a z : ℕ) → n ≡ 255 → a + z ≡ a + (if n == 255 then z else 0)
when_full n a z e = ground arith

when_short : (n a z : ℕ) → n ≢ 255 → a ≡ a + (if n == 255 then z else 0)
when_short n a z e = ground arith

sent :
    (s q : Bool) (b buf : List ℕ)
    → (if s then Choice.take_a_snapshot else if q then Choice.quit else Choice.send b)
      ≡ Choice.send buf
    → b ≡ buf
sent s q b buf e = ground arith

-- A line typed in, of at most 255 bytes as `fgets` gives it, that is sent as a command: the state
-- machine counts the letters of the line in its buffer of 256 bytes, of which the last held `z`; and
-- if the line is 255 bytes long with no newline or NUL among them, it counts `z` too if that is a
-- letter, because `strncpy` has put no NUL behind the line.
pub choose-letters :
    (junk line buf : List ℕ) (z : ℕ)
    → choose junk line ≡ Choice.send buf
    → drop 255 junk ≡ z ∷ []
    → length (typed line) ≤ 255
    → letters (before_nul buf)
      ≡ letters (typed line) + (if length (typed line) == 255 then letters (z ∷ []) else 0)
unfolding choose
choose-letters junk line buf z e d h =
    let b : strncpy junk (typed line) 255 ≡ buf = sent _ _ (strncpy junk (typed line) 255) buf e in
    elim (ℕ_discrete (length (typed line)) 255) [
      | yes full ↦
          ap (λ x. letters (before_nul x)) (sym b)
          ∙ full_letters junk (typed line) z (typed-NoNul line) d full
          ∙ when_full (length (typed line)) (letters (typed line)) (letters (z ∷ [])) full
      | no short ↦
          ap (λ x. letters (before_nul x)) (sym b)
          ∙ short_letters junk (typed line) z (typed-NoNul line) d (omega arith)
          ∙ when_short (length (typed line)) (letters (typed line)) (letters (z ∷ [])) short
    ]
