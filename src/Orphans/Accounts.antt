-- ===== src/Orphans/Accounts.antt =====
-- The counters of what was freed, against what was freed.
use libraft.Prelude.{ℕ, ◌%◌, ◌^◌, ◌≡◌, arith, Bool, List, [], ◌∷◌, Option, length}
use libraft.Call.{Args}
use libraft.Queue.Deque.{put, take}
use libraft.World.{World, ret, free_buf, deallocate}
use libraft.Future.{track_orphan, orphan_cleanup, dispose}
use libraft.Orphans.Rounds.{gc_round_keeps}
use libraft.Orphans.{try_dispose_orphan, next_orphan, gc_round}

-- The counters say how many calls and buffers were freed, in 64 bits.
pub record Accounted (w : World) : Type 0 where
  pub calls : w.stats.call_free ≡ length w.freed_slots % 2 ^ 64
  pub buffers : w.stats.buffer_free ≡ length w.freed_buffers % 2 ^ 64

cleanup-Accounted :
    (a : Args) (w w' : World) → orphan_cleanup a w ≡ ret tt w' → Accounted w → Accounted w'
unfolding orphan_cleanup free_buf
cleanup-Accounted a w w' e k = record {
  calls = ground (arith, k.calls);
  buffers = ground (arith, k.buffers);
}

dispose-Accounted : (p : ℕ) (w w' : World) → dispose p w ≡ ret tt w' → Accounted w → Accounted w'
unfolding dispose orphan_cleanup free_buf deallocate track_orphan put
dispose-Accounted p w w' e k = record {
  calls = ground (arith, k.calls);
  buffers = ground (arith, k.buffers);
}

try_dispose_orphan-Accounted :
    (p : ℕ) (b : Bool) (w w' : World)
    → try_dispose_orphan p w ≡ ret b w'
    → Accounted w
    → Accounted w'
unfolding try_dispose_orphan dispose orphan_cleanup free_buf deallocate track_orphan put
try_dispose_orphan-Accounted p b w w' e k = record {
  calls = ground (arith, k.calls);
  buffers = ground (arith, k.buffers);
}

next_orphan-Accounted :
    (backlog : List ℕ) (b : Bool) (o : Option ℕ) (w w' : World)
    → next_orphan backlog b w ≡ ret o w'
    → Accounted w
    → Accounted w'
unfolding next_orphan take
next_orphan-Accounted [] b o w w' e k = record {
  calls = ground (arith, k.calls);
  buffers = ground (arith, k.buffers);
}
next_orphan-Accounted (c ∷ cs) b o w w' e k = record {
  calls = ground (arith, k.calls);
  buffers = ground (arith, k.buffers);
}

-- A round of the collector keeps the accounts: if the counters of freed calls and buffers agree with
-- what was freed before it, in 64 bits, they do after it, whatever the round frees.
pub gc_round-Accounted :
    (backlog rest : List ℕ) (timed_out late : Bool) (w w' : World)
    → gc_round backlog timed_out late w ≡ ret rest w'
    → Accounted w
    → Accounted w'
gc_round-Accounted = gc_round_keeps Accounted try_dispose_orphan-Accounted next_orphan-Accounted
