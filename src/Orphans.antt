-- ===== src/Orphans.antt =====
-- The orphan collector of raft_shm.cc: calls that a client gave up before their answer.
pub mod Abandoned
pub mod Buffers
pub mod Scan
mod Backlogs
mod Cleared
pub mod CatchUp
pub mod Tracked
pub mod Clients
pub mod Safe
pub mod Rounds
pub mod Accounts
use libraft.Prelude.{
  ℕ, Bool, true, false, not, ◌&&◌, List, [], ◌∷◌, ◌++◌, Option, none, some, update, if◌then◌else◌,
}
use libraft.Slot.{Slot, is_terminal}
use libraft.Queue.Deque
use libraft.World.{
  World, Outcome, ret, blocked, raised, aborted, fault, M, pure, ◌>>=◌, ◌>>◌, branch, assert,
  slot_at, put_slot,
}
use libraft.Future.{dispose, nonzero}

abbrev pub lock : ℕ → Slot → M (Unit {0})
lock p s = put_slot p (record s { held = true })

-- The end of `slot_lock`: the mutex is written also where the slot has gone by then.
abbrev pub unlock : ℕ → M (Unit {0})
unlock p w = elim (w.slots p) [
  | none ↦ ret tt (record w { stale = p ∷ w.stale })
  | some s ↦ ret tt (record w { slots = update w.slots p (some (record s { held = false })) })
]

unfoldable pub try_dispose_orphan : ℕ → M Bool
try_dispose_orphan orphan = do
  assert (nonzero orphan)
  s ← slot_at orphan
  branch (not s.held && is_terminal s.state)
      (do lock orphan s; dispose orphan; unlock orphan; pure true) (pure false)

-- The calls that stay in the backlog, in order.
unfoldable pub scan_orphans : List ℕ → M (List ℕ)
scan_orphans [] = pure []
scan_orphans (c ∷ cs) = do
  gone ← try_dispose_orphan c
  rest ← scan_orphans cs
  pure (if gone then rest else c ∷ rest)

-- The next orphan: with no backlog the collector waits for one, and otherwise it waits until
-- `next_check` at most, which has come if `timed_out`.
unfoldable pub next_orphan : List ℕ → Bool → M (Option ℕ)
next_orphan [] timed_out w = elim (Deque.take w.orphaned_calls) [
  | Deque.Attempt.done (o, d) ↦ ret (some o) (record w { orphaned_calls = d })
  | Deque.Attempt.waits ↦ blocked w
  | Deque.Attempt.throws_closed ↦ raised w
]
next_orphan (c ∷ cs) timed_out w =
    branch timed_out (pure none)
      (λ v. elim (Deque.take v.orphaned_calls) [
        | Deque.Attempt.done (o, d) ↦ ret (some o) (record v { orphaned_calls = d })
        | Deque.Attempt.waits ↦ ret none v
        | Deque.Attempt.throws_closed ↦ raised v
      ])
      w

abbrev pub is_empty : List ℕ → Bool
is_empty [] = true
is_empty (c ∷ cs) = false

unfoldable pub take_in : List ℕ → Option ℕ → M (List ℕ)
take_in backlog none = pure backlog
take_in backlog (some o) = do
  gone ← try_dispose_orphan o
  pure (if gone then backlog else backlog ++ o ∷ [])

-- One round of the loop; `late` says whether the clock is past `next_check`.
unfoldable pub gc_round : List ℕ → Bool → Bool → M (List ℕ)
unfolding take_in
gc_round backlog timed_out late = do
  o ← next_orphan backlog timed_out
  backlog' ← take_in backlog o
  branch (late && not (is_empty backlog')) (scan_orphans backlog') (pure backlog')

-- The rounds that a list of clock readings gives.
unfoldable pub gc_rounds : List ℕ → List (Bool × Bool) → M (List ℕ)
gc_rounds backlog [] = pure backlog
gc_rounds backlog ((timed_out, late) ∷ more) = do
  backlog' ← gc_round backlog timed_out late
  gc_rounds backlog' more

-- The rest of the loop with this backlog; the exception of a closed queue ends the thread.
unfoldable pub orphan_gc_from : List ℕ → List (Bool × Bool) → M (Unit {0})
unfolding gc_rounds
orphan_gc_from backlog readings w = elim (gc_rounds backlog readings w) [
  | raised w' ↦ ret tt w'
  | ret b w' ↦ blocked w'
  | blocked w' ↦ blocked w'
  | aborted w' ↦ aborted w'
  | fault w' ↦ fault w'
]

unfoldable pub run_orphan_gc : List (Bool × Bool) → M (Unit {0})
unfolding orphan_gc_from
run_orphan_gc readings = orphan_gc_from [] readings
