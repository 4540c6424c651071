-- ===== src/Orphans/CatchUp.antt =====
-- Rounds of the collector of raft_shm.cc, one for each call in the orphan queue.
use libraft.Prelude.{
  among, ℕ, suc, ◌+◌, ◌≡◌, refl, sym, subst, ◌∙◌, Bool, true, false, not, ◌&&◌, List, [], ◌∷◌, ◌++◌,
  none, some, arith, if◌then◌else◌, append_assoc, append-nil, length,
}
use libraft.Queue.Deque.{take}
use libraft.World.{World, ret, in_shm_bounds, M, pure, ◌>>=◌, branch, bind_assoc}
use libraft.Orphans.{scan_orphans, next_orphan, take_in, is_empty, gc_round, gc_rounds}
use libraft.Orphans.Abandoned.{try_dispose_orphan_lem}
use libraft.Orphans.Buffers.{leaving, staying, times, owing}
use libraft.Orphans.Scan.{Backlog, Scanned, Scanned-none, scan_orphans_lem}
use libraft.Orphans.Backlogs.{Backlog-front, Backlog-tail}
use libraft.Orphans.Cleared.{Cleared, Cleared-trans, scanned-Cleared}

-- The world with the orphan queue open and holding these calls.
abbrev pub queueing : World → List ℕ → World
queueing w qs = record w { orphaned_calls = record { items = qs; closed = false } }

next-queued :
    (cs : List ℕ) (o : ℕ) (qs : List ℕ) (w : World)
    → w.orphaned_calls ≡ record { items = o ∷ qs; closed = false }
    → next_orphan cs false w ≡ ret (some o) (queueing w qs)
unfolding next_orphan take
next-queued [] o qs w e = ground arith
next-queued (c ∷ cs) o qs w e = ground arith

-- A call taken in is treated as a scan of it alone would.
take_in-queued :
    (cs : List ℕ) (o : ℕ) (w : World)
    → Backlog w.slots (o ∷ [])
    → (w' : World) × (take_in cs (some o) w ≡ ret (cs ++ staying w.slots (o ∷ [])) w')
      × Scanned w (o ∷ []) w'
unfolding take_in scan_orphans
take_in-queued cs o w b =
    let (w', f, sc) = scan_orphans_lem (o ∷ []) w b in
    let ((s, e, a), nz, _, _) = b in
    (w', ground (arith, try_dispose_orphan_lem o w s nz e a, f, append-nil cs), sc)

-- The end of a round.
abbrev pub end_of_round : Bool → List ℕ → M (List ℕ)
end_of_round late backlog =
    branch (late && not (is_empty backlog)) (scan_orphans backlog) (pure backlog)

-- What the backlog is after the end of a round: a late round scans it.
abbrev pub looked_at : Bool → World → List ℕ → List ℕ
looked_at late w cs = if late then staying w.slots cs else cs

scan_step :
    (cs : List ℕ) (w : World)
    → Backlog w.slots cs
    → (w' : World) × (end_of_round true cs w ≡ ret (staying w.slots cs) w') × Scanned w cs w'
scan_step [] w b = (w, refl, Scanned-none w)
scan_step (c ∷ cs) w b = scan_orphans_lem (c ∷ cs) w b

pub end_step :
    (late : Bool) (cs qs : List ℕ) (w : World)
    → Backlog w.slots (cs ++ qs)
    → (w' : World) × (end_of_round late cs w ≡ ret (looked_at late w cs) w')
      × Cleared w (cs ++ qs) w' (looked_at late w cs ++ qs)
      × (w'.orphaned_calls ≡ w.orphaned_calls)
end_step false cs qs w b =
    (w, refl, record { backlog = b; stays = refl; slots = λ q. refl; buffers = λ c. refl }, refl)
end_step true cs qs w b =
    let (w', f, sc) = scan_step cs w (Backlog-front w.slots cs qs b) in
    (w', f, scanned-Cleared w w' [] cs qs b sc.slots sc.bounds sc.buffers, sc.queue)

-- A round up to its end.
pub begin_round : List ℕ → Bool → M (List ℕ)
begin_round cs timed_out = do o ← next_orphan cs timed_out; take_in cs o

pub begin_step :
    (cs : List ℕ) (o : ℕ) (qs : List ℕ) (w : World)
    → Backlog w.slots (cs ++ o ∷ qs)
    → w.orphaned_calls ≡ record { items = o ∷ qs; closed = false }
    → (cs' : List ℕ) × (w' : World) × (begin_round cs false w ≡ ret cs' w')
      × Cleared w (cs ++ o ∷ qs) w' (cs' ++ qs)
      × (w'.orphaned_calls ≡ record { items = qs; closed = false })
unfolding begin_round in_shm_bounds
begin_step cs o qs w b e =
    let one = Backlog-tail w.slots cs (o ∷ qs) b in
    let (w', f, sc) = take_in-queued cs o (queueing w qs) (one.0, one.1, refl, tt) in
    let kept = staying w.slots (o ∷ []) in
    let clear : Cleared w (cs ++ o ∷ qs) w' (cs ++ (kept ++ qs)) =
      scanned-Cleared w w' cs (o ∷ []) qs b sc.slots sc.bounds sc.buffers in
    (
      cs ++ kept,
      w',
      ground (arith, next-queued cs o qs w e, f),
      subst (Cleared w (cs ++ o ∷ qs) w') (sym (append_assoc cs kept qs)) clear,
      sc.queue,
    )

pub round-end :
    (cs cs' : List ℕ) (late : Bool) (w w' : World)
    → begin_round cs false w ≡ ret cs' w'
    → gc_round cs false late w ≡ end_of_round late cs' w'
unfolding begin_round gc_round
round-end cs cs' late w w' e =
    sym (bind_assoc (next_orphan cs false) (take_in cs) (end_of_round late) w) ∙ ground (arith, e)

-- Rounds that each take a call in, the last of them a late one.
abbrev pub taking : List Bool → List (Bool × Bool)
taking [] = (false, true) ∷ []
taking (late ∷ more) = (false, late) ∷ taking more

abbrev Ends : List Bool → List ℕ → List ℕ → World → Type 0
Ends lates cs qs w =
    (w' : World) × (gc_rounds cs (taking lates) w ≡ ret (staying w.slots (cs ++ qs)) w')
    × ((q : ℕ) → w'.slots q ≡ (if among q (leaving w.slots (cs ++ qs)) then none else w.slots q))
    × ((b : ℕ)
        → times b w'.freed_buffers
          ≡ owing (in_shm_bounds w) w.slots b (cs ++ qs) + times b w.freed_buffers)
    × (w'.orphaned_calls ≡ record { items = []; closed = false })

last_round :
    (cs : List ℕ) (o : ℕ) (w : World)
    → Backlog w.slots (cs ++ o ∷ [])
    → w.orphaned_calls ≡ record { items = o ∷ []; closed = false }
    → Ends [] cs (o ∷ []) w
unfolding gc_rounds
last_round cs o w b e =
    let (cs', v, f, c, d) = begin_step cs o [] w b e in
    let clear : Cleared w (cs ++ o ∷ []) v cs' =
      subst (Cleared w (cs ++ o ∷ []) v) (append-nil cs') c in
    let (w', g, sc) = scan_step cs' v clear.backlog in
    (
      w',
      ground (arith, round-end cs cs' true w v f, g, clear.stays),
      λ q. sc.slots q ∙ clear.slots q,
      λ b. sc.buffers b ∙ clear.buffers b,
      sc.queue ∙ d,
    )

-- With calls that their clients gave up in the backlog and in the open orphan queue, each of them
-- there once: after a round for each call in the queue, the last of them late, whichever others are
-- late, all of the calls that are answered and not locked have been taken out of shared memory, and
-- nothing else has; the backlog holds the others in their order, and the queue is empty. Each buffer
-- in shared memory that is the command of an Apply call among those taken out has been given back
-- once for each such call, and no buffer besides.
pub gc_catches_up :
    (lates : List Bool) (cs qs : List ℕ) (w : World)
    → length qs ≡ suc (length lates)
    → Backlog w.slots (cs ++ qs)
    → w.orphaned_calls ≡ record { items = qs; closed = false }
    → (w' : World) × (gc_rounds cs (taking lates) w ≡ ret (staying w.slots (cs ++ qs)) w')
      × ((q : ℕ) → w'.slots q ≡ (if among q (leaving w.slots (cs ++ qs)) then none else w.slots q))
      × ((b : ℕ)
          → times b w'.freed_buffers
            ≡ owing (in_shm_bounds w) w.slots b (cs ++ qs) + times b w.freed_buffers)
      × (w'.orphaned_calls ≡ record { items = []; closed = false })
unfolding gc_rounds
gc_catches_up lates cs [] w n b e = absurd (omega arith)
gc_catches_up [] cs (o ∷ []) w n b e = last_round cs o w b e
gc_catches_up [] cs (o ∷ p ∷ qs) w n b e = absurd (omega arith)
gc_catches_up (late ∷ lates) cs (o ∷ qs) w n b e =
    let (cs', v, f, c, d) = begin_step cs o qs w b e in
    let (u, g, k, same) = end_step late cs' qs v c.backlog in
    let clear = Cleared-trans w v u (cs ++ o ∷ qs) (cs' ++ qs) (looked_at late v cs' ++ qs) c k in
    let (w', h, slots, buffers, queue) =
      gc_catches_up lates (looked_at late v cs') qs u (omega arith) clear.backlog (same ∙ d) in
    (
      w',
      ground (arith, round-end cs cs' late w v f, g, h, clear.stays),
      λ q. slots q ∙ clear.slots q,
      λ b. buffers b ∙ clear.buffers b,
      queue,
    )
