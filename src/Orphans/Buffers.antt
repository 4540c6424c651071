-- ===== src/Orphans/Buffers.antt =====
-- Which calls of a list a scan frees, and which command buffers go with them.
use libraft.Prelude.{
  ℕ, ◌+◌, ◌≡◌, refl, Bool, false, ◌&&◌, List, [], ◌∷◌, ◌++◌, Option, none, some, arith, ◌==◌,
  if◌then◌else◌, Option-cases, inl, inr,
}
use libraft.Call.{Args}
use libraft.Slot.{Slot}
use libraft.World.{World, in_shm_bounds}
use libraft.Future.{ready}
use libraft.Future.Disposal.{cleaned}
use libraft.Orphans.Abandoned.{locked, collected}

abbrev pub Slots : Type 0
Slots = ℕ → Option Slot

abbrev pub is_ready : Slots → ℕ → Bool
is_ready slots p = elim (slots p) [ none ↦ false | some s ↦ ready s ]

abbrev pub leaving : Slots → List ℕ → List ℕ
leaving slots [] = []
leaving slots (c ∷ cs) = let rest = leaving slots cs in if is_ready slots c then c ∷ rest else rest

abbrev pub staying : Slots → List ℕ → List ℕ
staying slots [] = []
staying slots (c ∷ cs) = let rest = staying slots cs in if is_ready slots c then rest else c ∷ rest

-- How many times a buffer stands in a list.
abbrev pub times : ℕ → List ℕ → ℕ
times b [] = 0
times b (x ∷ xs) = (if x == b then 1 else 0) + times b xs

-- Whether a buffer is the command of an Apply call, where it is in shared memory.
abbrev pub held_by : (ℕ → Bool) → ℕ → Args → ℕ
held_by inside b (Args.apply_args buf len timeout) = if inside buf && buf == b then 1 else 0
held_by inside b a = 0

abbrev pub held_at : (ℕ → Bool) → Slots → ℕ → ℕ → ℕ
held_at inside slots b p = elim (slots p) [ none ↦ 0 | some s ↦ held_by inside b s.args ]

-- How many times the calls that leave a list hold a buffer.
abbrev pub owing : (ℕ → Bool) → Slots → ℕ → List ℕ → ℕ
owing inside slots b [] = 0
owing inside slots b (c ∷ cs) =
    let rest = owing inside slots b cs in
    if is_ready slots c then held_at inside slots b c + rest else rest

abbrev pub Agree : Slots → Slots → List ℕ → Type 0
Agree slots slots' [] = Unit
Agree slots slots' (c ∷ cs) = (slots' c ≡ slots c) × Agree slots slots' cs

pub leaving-Agree :
    (slots slots' : Slots) (cs : List ℕ)
    → Agree slots slots' cs
    → (leaving slots' cs ≡ leaving slots cs) × (staying slots' cs ≡ staying slots cs)
leaving-Agree slots slots' [] a = (refl, refl)
leaving-Agree slots slots' (c ∷ cs) a = ground (arith, leaving-Agree slots slots' cs a.1)

module _ (inside : ℕ → Bool) (b : ℕ) where
  pub owing-Agree :
      (slots slots' : Slots) (cs : List ℕ)
      → Agree slots slots' cs
      → owing inside slots' b cs ≡ owing inside slots b cs
  owing-Agree slots slots' [] a = refl
  owing-Agree slots slots' (c ∷ cs) a = ground (arith, owing-Agree slots slots' cs a.1)

  pub owing-append :
      (slots : Slots) (xs ys : List ℕ)
      → owing inside slots b (xs ++ ys) ≡ owing inside slots b xs + owing inside slots b ys
  owing-append slots [] ys = ground arith
  owing-append slots (x ∷ xs) ys = ground (arith, owing-append slots xs ys)

  pub owing-staying : (slots : Slots) (xs : List ℕ) → owing inside slots b (staying slots xs) ≡ 0
  owing-staying slots [] = refl
  owing-staying slots (x ∷ xs) = ground (arith, owing-staying slots xs)

held_by-bounds :
    (inside inside' : ℕ → Bool) (b : ℕ) (a : Args)
    → ((p : ℕ) → inside' p ≡ inside p)
    → held_by inside' b a ≡ held_by inside b a
held_by-bounds inside inside' b (Args.apply_args buf len timeout) h = ground (arith, h buf)
held_by-bounds inside inside' b a h = refl

held_at-bounds :
    (inside inside' : ℕ → Bool) (b : ℕ) (slots : Slots) (c : ℕ)
    → ((p : ℕ) → inside' p ≡ inside p)
    → held_at inside' slots b c ≡ held_at inside slots b c
held_at-bounds inside inside' b slots c h = elim (Option-cases (slots c)) [
  | inl e ↦ ground (arith, e)
  | inr (s, e) ↦ ground (arith, e, held_by-bounds inside inside' b s.args h)
]

-- Only what the addresses in shared memory are matters.
pub owing-bounds :
    (inside inside' : ℕ → Bool) (b : ℕ) (slots : Slots) (cs : List ℕ)
    → ((p : ℕ) → inside' p ≡ inside p)
    → owing inside' slots b cs ≡ owing inside slots b cs
owing-bounds inside inside' b slots [] h = refl
owing-bounds inside inside' b slots (c ∷ cs) h =
    ground
      (arith, owing-bounds inside inside' b slots cs h, held_at-bounds inside inside' b slots c h)

cleaned-bounds :
    (w : World) (a : Args)
    → ((cleaned w a).shm_base ≡ w.shm_base) × ((cleaned w a).shm_size ≡ w.shm_size)
cleaned-bounds w (Args.apply_args buf len timeout) = ground arith
cleaned-bounds w a = (refl, refl)

-- Freeing an orphan leaves the mapping alone, and gives back the buffer that its call holds.
pub collected-bounds :
    (w : World) (c : ℕ) (s : Slot) (p : ℕ) → in_shm_bounds (collected w c s) p ≡ in_shm_bounds w p
unfolding in_shm_bounds
collected-bounds w c s p = ground (arith, cleaned-bounds (locked w c s) s.args)

cleaned-times :
    (w : World) (a : Args) (b : ℕ)
    → times b (cleaned w a).freed_buffers ≡ held_by (in_shm_bounds w) b a + times b w.freed_buffers
cleaned-times w (Args.apply_args buf len timeout) b = ground arith
cleaned-times w a b = ground arith

pub collected-times :
    (w : World) (c : ℕ) (s : Slot) (b : ℕ)
    → times b (collected w c s).freed_buffers
      ≡ held_by (in_shm_bounds w) b s.args + times b w.freed_buffers
unfolding in_shm_bounds
collected-times w c s b = cleaned-times (locked w c s) s.args b
