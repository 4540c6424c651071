-- ===== src/Orphans/Scan.antt =====
-- A scan of the backlog: each call that is answered and not locked is freed, once, and the others
-- stay in their order.
use libraft.Prelude.{
  among, ℕ, ◌+◌, ◌≡◌, ◌≢◌, refl, ap, ◌∙◌, true, false, List, [], ◌∷◌, none, some, arith, ◌==◌,
  if◌then◌else◌, inl, inr, Bool-cases,
}
use libraft.Call.{Args}
use libraft.Slot.{Slot, ClientState}
use libraft.World.{World, ret, in_shm_bounds}
use libraft.Future.{ready}
use libraft.Future.Disposal.{cleaned}
use libraft.Orphans.{scan_orphans}
use libraft.Orphans.Buffers.{
  Slots, leaving, staying, Agree, leaving-Agree, times, held_by, owing, owing-Agree, owing-bounds,
  collected-bounds, collected-times,
}
use libraft.Orphans.Abandoned.{locked, collected, try_dispose_orphan_lem}

-- Added at the front one by one.
abbrev pub onto : List ℕ → List ℕ → List ℕ
onto [] ys = ys
onto (x ∷ xs) ys = onto xs (x ∷ ys)

-- The calls of a backlog: allocated, given up by their client, and each of them there once.
abbrev pub Backlog : Slots → List ℕ → Type 0
Backlog slots [] = Unit
Backlog slots (c ∷ cs) =
    ((s : Slot) × (slots c ≡ some s) × (s.client_state ≡ ClientState.abandoned))
    × (c ≢ 0)
    × (among c cs ≡ false)
    × Backlog slots cs

pub Agree-at :
    (slots slots' : Slots) (cs : List ℕ)
    → ((q : ℕ) → among q cs ≡ true → slots' q ≡ slots q)
    → Agree slots slots' cs
Agree-at slots slots' [] h = tt
Agree-at slots slots' (c ∷ cs) h =
    (h c (ground arith), Agree-at slots slots' cs (λ q m. h q (ground (arith, m))))

Agree-off :
    (slots slots' : Slots) (c : ℕ) (cs : List ℕ)
    → ((q : ℕ) → c ≢ q → slots' q ≡ slots q)
    → among c cs ≡ false
    → Agree slots slots' cs
Agree-off slots slots' c [] h a = tt
Agree-off slots slots' c (d ∷ cs) h a =
    (h d (ground arith), Agree-off slots slots' c cs h (ground arith))

pub Backlog-Agree :
    (slots slots' : Slots) (cs : List ℕ)
    → Agree slots slots' cs
    → Backlog slots cs
    → Backlog slots' cs
Backlog-Agree slots slots' [] a b = tt
Backlog-Agree slots slots' (c ∷ cs) a b =
    ((b.0.0, a.0 ∙ b.0.1, b.0.2), b.1, b.2, Backlog-Agree slots slots' cs a.1 b.3)

cleaned_same :
    (w : World) (a : Args)
    → ((cleaned w a).slots ≡ w.slots)
      × ((cleaned w a).freed_slots ≡ w.freed_slots)
      × ((cleaned w a).orphaned_calls ≡ w.orphaned_calls)
cleaned_same w (Args.apply_args buf len timeout) = ground arith
cleaned_same w a = (refl, refl, refl)

collected-slots :
    (w : World) (c q : ℕ) (s : Slot)
    → (collected w c s).slots q ≡ (if c == q then none else w.slots q)
collected-slots w c q s = ground (arith, ap (λ f. f q) (cleaned_same (locked w c s) s.args).0)

collected-freed : (w : World) (c : ℕ) (s : Slot) → (collected w c s).freed_slots ≡ c ∷ w.freed_slots
collected-freed w c s = ap (◌∷◌ c) (cleaned_same (locked w c s) s.args).1

others_same :
    (c : ℕ) (cs : List ℕ) (w : World) (s : Slot)
    → among c cs ≡ false
    → Agree w.slots (collected w c s).slots cs
others_same c cs w s once =
    Agree-off w.slots (collected w c s).slots c cs (λ q ne. ground (arith, collected-slots w c q s))
      once

-- What a scan of `cs` from `w` leaves.
pub record Scanned (w : World) (cs : List ℕ) (w' : World) : Type 0 where
  pub freed : w'.freed_slots ≡ onto (leaving w.slots cs) w.freed_slots
  pub slots : (q : ℕ) → w'.slots q ≡ (if among q (leaving w.slots cs) then none else w.slots q)
  pub queue : w'.orphaned_calls ≡ w.orphaned_calls
  pub bounds : (p : ℕ) → in_shm_bounds w' p ≡ in_shm_bounds w p
  pub buffers :
      (b : ℕ)
      → times b w'.freed_buffers ≡ owing (in_shm_bounds w) w.slots b cs + times b w.freed_buffers

pub Scanned-none : (w : World) → Scanned w [] w
Scanned-none w = record {
  freed = refl;
  slots = λ q. refl;
  queue = refl;
  bounds = λ p. refl;
  buffers = λ b. ground arith;
}

ready-buffers :
    (b c : ℕ) (cs : List ℕ) (w : World) (s : Slot) (w' : World)
    → w.slots c ≡ some s
    → Agree w.slots (collected w c s).slots cs
    → ready s ≡ true
    → times b w'.freed_buffers
      ≡ owing (in_shm_bounds (collected w c s)) (collected w c s).slots b cs
        + times b (collected w c s).freed_buffers
    → times b w'.freed_buffers
      ≡ owing (in_shm_bounds w) w.slots b (c ∷ cs) + times b w.freed_buffers
ready-buffers b c cs w s w' e g r h =
    let inside = in_shm_bounds w in
    let u = collected w c s in
    let more =
      owing-bounds inside (in_shm_bounds u) b u.slots cs (collected-bounds w c s)
      ∙ owing-Agree inside b w.slots u.slots cs g in
    let here : owing inside w.slots b (c ∷ cs)
        ≡ held_by inside b s.args + owing inside w.slots b cs =
      ground (arith, e, r) in
    omega (arith, h, more, here, collected-times w c s b)

abbrev Scans : List ℕ → World → Type 0
Scans cs w = (w' : World) × (scan_orphans cs w ≡ ret (staying w.slots cs) w') × Scanned w cs w'

-- The head of the backlog is freed, and the rest is scanned from what that leaves.
scan_ready :
    (c : ℕ) (cs : List ℕ) (w : World) (s : Slot)
    → w.slots c ≡ some s
    → s.client_state ≡ ClientState.abandoned
    → c ≢ 0
    → Agree w.slots (collected w c s).slots cs
    → ready s ≡ true
    → Scans cs (collected w c s)
    → Scans (c ∷ cs) w
unfolding scan_orphans
scan_ready c cs w s e a nz g r (w', e', sc) = (
  w',
  ground (
    arith,
    try_dispose_orphan_lem c w s nz e a,
    leaving-Agree w.slots (collected w c s).slots cs g,
  ),
  record {
    freed =
        ground (arith, collected-freed w c s, leaving-Agree w.slots (collected w c s).slots cs g);
    slots = λ q. ground (
      arith,
      sc.slots q,
      collected-slots w c q s,
      leaving-Agree w.slots (collected w c s).slots cs g,
    );
    queue = sc.queue ∙ (cleaned_same (locked w c s) s.args).2;
    bounds = λ p. sc.bounds p ∙ collected-bounds w c s p;
    buffers = λ b. ready-buffers b c cs w s w' e g r (sc.buffers b);
  },
)

scan_open :
    (c : ℕ) (cs : List ℕ) (w : World) (s : Slot)
    → w.slots c ≡ some s
    → s.client_state ≡ ClientState.abandoned
    → c ≢ 0
    → ready s ≡ false
    → Scans cs w
    → Scans (c ∷ cs) w
unfolding scan_orphans
scan_open c cs w s e a nz r (w', e', sc) = (
  w',
  ground (arith, try_dispose_orphan_lem c w s nz e a),
  record {
    freed = ground arith;
    slots = λ q. ground (arith, sc.slots q);
    queue = sc.queue;
    bounds = sc.bounds;
    buffers = λ b. ground (arith, sc.buffers b);
  },
)

-- A scan of a backlog of given-up calls ends without a fault. It frees those that are answered and
-- not locked, each once and in their order, takes exactly these out of shared memory, leaves the
-- orphan queue and the mapping alone, gives back the buffers that they hold, and returns the others
-- in their order.
pub scan_orphans_lem :
    (cs : List ℕ) (w : World)
    → Backlog w.slots cs
    → (w' : World) × (scan_orphans cs w ≡ ret (staying w.slots cs) w') × Scanned w cs w'
unfolding scan_orphans
scan_orphans_lem [] w b = (w, refl, Scanned-none w)
scan_orphans_lem (c ∷ cs) w ((s, e, a), nz, once, b) = elim (Bool-cases (ready s)) [
  | inl r ↦ scan_ready c cs w s e a nz (others_same c cs w s once) r (
      scan_orphans_lem cs (collected w c s)
        (Backlog-Agree w.slots (collected w c s).slots cs (others_same c cs w s once) b))
  | inr r ↦ scan_open c cs w s e a nz r (scan_orphans_lem cs w b)
]
