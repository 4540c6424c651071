-- ===== src/Prelude/Members.antt =====
-- Lists of numbers as finite sets: membership, repetition, and a number taken out.
use Prim.Native.Nat.{ℕ, suc, ◌+◌, ◌≤◌}
use mathlib.Core.Path.{◌≡◌, refl}
use mathlib.Core.Bool.{Bool, true, false, ◌||◌}
use mathlib.Core.List.{List, [], ◌∷◌, ◌++◌}
use native.Mathlib.Omega.{arith}
use libraft.Prelude.Tests.{◌==◌, if◌then◌else◌}
use libraft.Prelude.Lists.{length}

abbrev pub among : ℕ → List ℕ → Bool
among q [] = false
among q (c ∷ cs) = c == q || among q cs

abbrev pub Distinct : List ℕ → Type 0
Distinct [] = Unit
Distinct (c ∷ cs) = (among c cs ≡ false) × Distinct cs

abbrev pub without : ℕ → List ℕ → List ℕ
without q [] = []
without q (c ∷ cs) = let rest = without q cs in if c == q then rest else c ∷ rest

pub among-without_self : (q : ℕ) (cs : List ℕ) → among q (without q cs) ≡ false
among-without_self q [] = refl
among-without_self q (c ∷ cs) = ground (arith, among-without_self q cs)

pub among-without : (q p : ℕ) (cs : List ℕ) → among p cs ≡ false → among p (without q cs) ≡ false
among-without q p [] h = refl
among-without q p (c ∷ cs) h = ground (arith, among-without q p cs)

pub without-eq : (q : ℕ) (cs : List ℕ) → among q cs ≡ false → without q cs ≡ cs
without-eq q [] h = refl
without-eq q (c ∷ cs) h = ground (arith, without-eq q cs)

pub length-without : (q : ℕ) (cs : List ℕ) → Distinct cs → length cs ≤ length (without q cs) + 1
length-without q [] d = omega arith
length-without q (c ∷ cs) d = ground (arith, length-without q cs d.1, without-eq q cs)

pub without-Distinct : (q : ℕ) (cs : List ℕ) → Distinct cs → Distinct (without q cs)
without-Distinct q [] d = tt
without-Distinct q (c ∷ cs) d =
    keeps (c == q) (among-without q c cs d.0) (without-Distinct q cs d.1)
  where
    keeps :
        (b : Bool)
        → among c (without q cs) ≡ false
        → Distinct (without q cs)
        → Distinct (if b then without q cs else c ∷ without q cs)
    keeps true h k = k
    keeps false h k = (h, k)

pub among-without_ne :
    (q p : ℕ) (cs : List ℕ) → (p == q) ≡ false → among p (without q cs) ≡ among p cs
among-without_ne q p [] h = refl
among-without_ne q p (c ∷ cs) h = ground (arith, among-without_ne q p cs h)

pub length-without_member :
    (q : ℕ) (cs : List ℕ)
    → Distinct cs
    → among q cs ≡ true
    → length cs ≡ suc (length (without q cs))
length-without_member q [] d h = ground arith
length-without_member q (c ∷ cs) d h =
    ground (arith, length-without_member q cs d.1, without-eq q cs)

pub among-append : (q : ℕ) (xs ys : List ℕ) → among q (xs ++ ys) ≡ (among q xs || among q ys)
among-append q [] ys = refl
among-append q (x ∷ xs) ys = ground (arith, among-append q xs ys)
