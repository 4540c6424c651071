-- ===== src/Orphans/Tracked.antt =====
-- The orphans that the collector of raft_shm.cc knows of, through its next round.
use libraft.Prelude.{
  among, among-append, ℕ, ◌≡◌, ◌≢◌, refl, sym, ap, subst, ◌∙◌, Bool, true, false, List, [], ◌∷◌,
  ◌++◌, Option, none, some, arith,
}
use libraft.Slot.{Slot, ClientState}
use libraft.Queue.Deque.{take}
use libraft.World.{World, Outcome, ret, blocked, raised, aborted, fault}
use libraft.Orphans.{next_orphan, take_in, gc_round}
use libraft.Orphans.Buffers.{Slots}
use libraft.Orphans.Scan.{Backlog}
use libraft.Orphans.CatchUp.{looked_at, end_step, begin_step, round-end}

-- What the client's side says of the call at an address.
abbrev pub client_of : Option Slot → Option ClientState
client_of none = none
client_of (some s) = some s.client_state

-- Given-up calls stay where they are, given up.
abbrev pub Stays : Slots → Slots → Type 0
Stays slots slots' =
    (q : ℕ)
    → client_of (slots q) ≡ some ClientState.abandoned
    → client_of (slots' q) ≡ some ClientState.abandoned

found :
    (o : Option Slot)
    → client_of o ≡ some ClientState.abandoned
    → (s : Slot) × (o ≡ some s) × (s.client_state ≡ ClientState.abandoned)
found none e = absurd (ground arith)
found (some s) e = (s, refl, ground arith)

pub Backlog-Stays :
    (slots slots' : Slots) (xs : List ℕ) → Stays slots slots' → Backlog slots xs → Backlog slots' xs
Backlog-Stays slots slots' [] h b = tt
Backlog-Stays slots slots' (x ∷ xs) h ((s, e, a), nz, once, b) =
    (found (slots' x) (h x (ground (arith, e, a))), nz, once, Backlog-Stays slots slots' xs h b)

-- Every call of the list is given up.
pub Backlog-client :
    (slots : Slots) (xs : List ℕ) (q : ℕ)
    → Backlog slots xs
    → among q xs ≡ true
    → client_of (slots q) ≡ some ClientState.abandoned
Backlog-client slots [] q b h = absurd (ground arith)
Backlog-client slots (x ∷ xs) q ((s, e, a), nz, once, b) h =
    ground (arith, e, a, Backlog-client slots xs q b)

pub Backlog-snoc :
    (slots : Slots) (xs : List ℕ) (p : ℕ) (s : Slot)
    → Backlog slots xs
    → among p xs ≡ false
    → slots p ≡ some s
    → s.client_state ≡ ClientState.abandoned
    → p ≢ 0
    → Backlog slots (xs ++ p ∷ [])
Backlog-snoc slots [] p s b h e a nz = ((s, e, a), nz, refl, tt)
Backlog-snoc slots (x ∷ xs) p s (f, n, once, b) h e a nz = (
  f,
  n,
  ground (arith, among-append x xs (p ∷ []), h, once),
  Backlog-snoc slots xs p s b (ground (arith, h)) e a nz,
)

-- The calls of the backlog and of the queue: allocated, given up, and each there once.
abbrev pub Tracked : List ℕ → World → Type 0
Tracked backlog w = Backlog w.slots (backlog ++ w.orphaned_calls.items)

-- A round that ends, waits, or finds the queue closed, with no assertion failing and no call looked
-- at that is not allocated.
abbrev pub Collects : Outcome (List ℕ) → Type 0
Collects (ret backlog w) = Tracked backlog w
Collects (blocked w) = Unit
Collects (raised w) = Unit
Collects (aborted w) = ⊥
Collects (fault w) = ⊥

-- A round that takes no call in.
idle_round :
    (cs : List ℕ) (timed_out late : Bool) (w : World)
    → next_orphan cs timed_out w ≡ ret none w
    → Tracked cs w
    → Collects (gc_round cs timed_out late w)
unfolding gc_round take_in
idle_round cs timed_out late w n b =
    let (w', f, c, same) = end_step late cs w.orphaned_calls.items w b in
    let ends : gc_round cs timed_out late w ≡ ret (looked_at late w cs) w' = ground (arith, n, f) in
    subst Collects (sym ends) (
      subst (λ d. Backlog w'.slots (looked_at late w cs ++ d)) (sym (ap (λ d. d.items) same))
        c.backlog)

-- A round that takes the oldest call of the queue in.
busy_round :
    (cs : List ℕ) (late : Bool) (o : ℕ) (qs : List ℕ) (w : World)
    → w.orphaned_calls ≡ record { items = o ∷ qs; closed = false }
    → Tracked cs w
    → Collects (gc_round cs false late w)
busy_round cs late o qs w e b =
    let b' : Backlog w.slots (cs ++ o ∷ qs) = subst (λ d. Backlog w.slots (cs ++ d.items)) e b in
    let (cs', v, f, c, d) = begin_step cs o qs w b' e in
    let (w', g, k, same) = end_step late cs' qs v c.backlog in
    subst Collects (sym (round-end cs cs' late w v f ∙ g))
      (subst (λ x. Backlog w'.slots (looked_at late v cs' ++ x.items)) (sym (same ∙ d)) k.backlog)

raised_round :
    (cs : List ℕ) (timed_out late : Bool) (w v : World)
    → next_orphan cs timed_out w ≡ raised v
    → Collects (gc_round cs timed_out late w)
unfolding gc_round
raised_round cs timed_out late w v n =
    let ends : gc_round cs timed_out late w ≡ raised v = ground (arith, n) in
    subst Collects (sym ends) tt

blocked_round :
    (cs : List ℕ) (timed_out late : Bool) (w v : World)
    → next_orphan cs timed_out w ≡ blocked v
    → Collects (gc_round cs timed_out late w)
unfolding gc_round
blocked_round cs timed_out late w v n =
    let ends : gc_round cs timed_out late w ≡ blocked v = ground (arith, n) in
    subst Collects (sym ends) tt

-- With no backlog the end of the time does not matter.
always_waits : (late : Bool) (w : World) → gc_round [] true late w ≡ gc_round [] false late w
unfolding gc_round next_orphan
always_waits late w = refl

round_by :
    (cs : List ℕ) (timed_out late : Bool) (items : List ℕ) (closed : Bool) (w : World)
    → w.orphaned_calls ≡ record { items = items; closed = closed }
    → Tracked cs w
    → Collects (gc_round cs timed_out late w)
unfolding next_orphan take
round_by (c ∷ cs) true late items closed w e b = idle_round (c ∷ cs) true late w refl b
round_by (c ∷ cs) false late items true w e b = raised_round (c ∷ cs) false late w w (ground arith)
round_by (c ∷ cs) false late [] false w e b = idle_round (c ∷ cs) false late w (ground arith) b
round_by (c ∷ cs) false late (o ∷ qs) false w e b = busy_round (c ∷ cs) late o qs w e b
round_by [] timed_out late items true w e b = raised_round [] timed_out late w w (ground arith)
round_by [] timed_out late [] false w e b = blocked_round [] timed_out late w w (ground arith)
round_by [] false late (o ∷ qs) false w e b = busy_round [] late o qs w e b
round_by [] true late (o ∷ qs) false w e b =
    subst Collects (sym (always_waits late w)) (busy_round [] late o qs w e b)

pub gc_round-Collects :
    (cs : List ℕ) (timed_out late : Bool) (w : World)
    → Tracked cs w
    → Collects (gc_round cs timed_out late w)
gc_round-Collects cs timed_out late w b =
    round_by cs timed_out late w.orphaned_calls.items w.orphaned_calls.closed w refl b
