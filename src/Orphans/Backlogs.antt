-- ===== src/Orphans/Backlogs.antt =====
-- The orphans in the backlog and in the queue as one list, and what a scan of a part of it leaves.
use libraft.Prelude.{
  among, among-append, ℕ, ◌≡◌, refl, ap, ◌∙◌, true, false, ◌||◌, List, [], ◌∷◌, ◌++◌, arith, inl,
  inr, Bool-cases,
}
use libraft.Orphans.Scan.{Backlog}
use libraft.Orphans.Buffers.{Slots, is_ready, leaving, staying}

staying-append :
    (slots : Slots) (xs ys : List ℕ)
    → staying slots (xs ++ ys) ≡ staying slots xs ++ staying slots ys
staying-append slots [] ys = refl
staying-append slots (x ∷ xs) ys = ground (arith, staying-append slots xs ys)

leaving-append :
    (slots : Slots) (xs ys : List ℕ)
    → leaving slots (xs ++ ys) ≡ leaving slots xs ++ leaving slots ys
leaving-append slots [] ys = refl
leaving-append slots (x ∷ xs) ys = ground (arith, leaving-append slots xs ys)

staying-staying :
    (slots : Slots) (xs : List ℕ) → staying slots (staying slots xs) ≡ staying slots xs
staying-staying slots [] = refl
staying-staying slots (x ∷ xs) = ground (arith, staying-staying slots xs)

pub leaving-staying : (slots : Slots) (xs : List ℕ) → leaving slots (staying slots xs) ≡ []
leaving-staying slots [] = refl
leaving-staying slots (x ∷ xs) = ground (arith, leaving-staying slots xs)

pub staying-part :
    (slots : Slots) (pre mid post : List ℕ)
    → staying slots (pre ++ (staying slots mid ++ post)) ≡ staying slots (pre ++ (mid ++ post))
staying-part slots pre mid post = ground (
  arith,
  staying-append slots pre (staying slots mid ++ post),
  staying-append slots (staying slots mid) post,
  staying-append slots pre (mid ++ post),
  staying-append slots mid post,
  staying-staying slots mid,
)

-- Whether a call leaves the list, by its parts.
pub among-parts :
    (slots : Slots) (q : ℕ) (pre mid post : List ℕ)
    → among q (leaving slots (pre ++ (mid ++ post))) ≡ (
        among q (leaving slots pre)
        || (among q (leaving slots mid) || among q (leaving slots post)))
among-parts slots q pre mid post =
    ap (among q) (leaving-append slots pre (mid ++ post))
    ∙ among-append q (leaving slots pre) (leaving slots (mid ++ post))
    ∙ ap (λ b. among q (leaving slots pre) || b)
        (ap (among q) (leaving-append slots mid post)
          ∙ among-append q (leaving slots mid) (leaving slots post))

among-leaving :
    (slots : Slots) (q : ℕ) (xs : List ℕ) → among q xs ≡ false → among q (leaving slots xs) ≡ false
among-leaving slots q [] h = refl
among-leaving slots q (x ∷ xs) h = ground (arith, among-leaving slots q xs)

among-staying :
    (slots : Slots) (q : ℕ) (xs : List ℕ) → among q xs ≡ false → among q (staying slots xs) ≡ false
among-staying slots q [] h = refl
among-staying slots q (x ∷ xs) h = ground (arith, among-staying slots q xs)

-- What leaves is ready, and what stays is not.
leaving-ready :
    (slots : Slots) (q : ℕ) (xs : List ℕ)
    → is_ready slots q ≡ false
    → among q (leaving slots xs) ≡ false
leaving-ready slots q [] h = refl
leaving-ready slots q (x ∷ xs) h = ground (arith, leaving-ready slots q xs)

staying-ready :
    (slots : Slots) (q : ℕ) (xs : List ℕ)
    → is_ready slots q ≡ true
    → among q (staying slots xs) ≡ false
staying-ready slots q [] h = refl
staying-ready slots q (x ∷ xs) h = ground (arith, staying-ready slots q xs)

pub Backlog-tail : (slots : Slots) (xs ys : List ℕ) → Backlog slots (xs ++ ys) → Backlog slots ys
Backlog-tail slots [] ys b = b
Backlog-tail slots (x ∷ xs) ys b = Backlog-tail slots xs ys b.3

pub Backlog-front : (slots : Slots) (xs ys : List ℕ) → Backlog slots (xs ++ ys) → Backlog slots xs
Backlog-front slots [] ys b = tt
Backlog-front slots (x ∷ xs) ys b =
    (b.0, b.1, ground (arith, among-append x xs ys, b.2), Backlog-front slots xs ys b.3)

-- No call stands both in the front and in the rest.
Backlog-apart :
    (slots : Slots) (xs ys : List ℕ) (q : ℕ)
    → Backlog slots (xs ++ ys)
    → among q ys ≡ true
    → among q xs ≡ false
Backlog-apart slots [] ys q b h = refl
Backlog-apart slots (x ∷ xs) ys q b h =
    ground (arith, Backlog-apart slots xs ys q b.3 h, b.2, among-append x xs ys)

among-scanned :
    (slots : Slots) (q : ℕ) (pre mid post : List ℕ)
    → among q (pre ++ (mid ++ post)) ≡ false
    → among q (pre ++ (staying slots mid ++ post)) ≡ false
among-scanned slots q pre mid post h = ground (
  arith,
  among-append q pre (mid ++ post),
  among-append q mid post,
  among-append q pre (staying slots mid ++ post),
  among-append q (staying slots mid) post,
  among-staying slots q mid,
)

Backlog-staying :
    (slots : Slots) (mid post : List ℕ)
    → Backlog slots (mid ++ post)
    → Backlog slots (staying slots mid ++ post)
Backlog-staying slots [] post b = b
Backlog-staying slots (x ∷ mid) post b = elim (Bool-cases (is_ready slots x)) [
  | inl r ↦ rw r (Backlog-staying slots mid post b.3)
  | inr r ↦
      rw r (b.0, b.1, among-scanned slots x [] mid post b.2, Backlog-staying slots mid post b.3)
]

pub Backlog-scanned :
    (slots : Slots) (pre mid post : List ℕ)
    → Backlog slots (pre ++ (mid ++ post))
    → Backlog slots (pre ++ (staying slots mid ++ post))
Backlog-scanned slots [] mid post b = Backlog-staying slots mid post b
Backlog-scanned slots (x ∷ pre) mid post b =
    (b.0, b.1, among-scanned slots x pre mid post b.2, Backlog-scanned slots pre mid post b.3)

-- Of the list, only calls of the part that is scanned leave, and they leave it for good.
pub leaving_off :
    (slots : Slots) (q : ℕ) (pre mid post : List ℕ)
    → Backlog slots (pre ++ (mid ++ post))
    → among q (pre ++ (staying slots mid ++ post)) ≡ true
    → among q (leaving slots mid) ≡ false
leaving_off slots q pre mid post b h = elim (Bool-cases (among q (leaving slots mid))) [
  | inr off ↦ off
  | inl on_ ↦ absurd (
      ground (
        arith,
        Backlog-apart slots pre (mid ++ post) q b,
        Backlog-apart slots mid post q (Backlog-tail slots pre (mid ++ post) b),
        among-append q mid post,
        among-append q pre (staying slots mid ++ post),
        among-append q (staying slots mid) post,
        among-leaving slots q mid,
        leaving-ready slots q mid,
        staying-ready slots q mid,
      ))
]
