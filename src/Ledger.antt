-- ===== src/Ledger.antt =====
-- The calls in use, against the counters of stats.h: what the requests of raft_shm.h, `dispose` and the
-- collector of raft_shm.cc do to both.
pub mod Freed
pub mod Made
pub mod Kept
pub mod Reached
use libraft.Prelude.{
  ◌≡◌, refl, sym, ap, ◌∙◌, subst, arith, ℕ, suc, ◌+◌, ◌%◌, ◌^◌, ◌<◌, ◌==◌, Bool, true, false, not,
  ◌&&◌, ◌||◌, List, [], ◌∷◌, ◌++◌, Option, none, some, length, update, update_self, update_ne,
  Bool-cases, Option-cases, inl, inr, if◌then◌else◌, among, Distinct, without, among-without_self,
  among-without_ne, length-without_member, length-without, without-Distinct,
}
use libraft.World.{World, Stats, M, pure, ◌>>=◌, bind-ret, branch, ret, inc}
use libraft.Slot.{Slot, ClientState, is_terminal}
use libraft.Orphans.{try_dispose_orphan, lock, unlock, next_orphan, gc_round}
use libraft.Orphans.Rounds.{gc_round_keeps}
use libraft.World.{free_buf, deallocate}
use libraft.Queue.Deque.{put}
use libraft.Future.{dispose, orphan_cleanup, track_orphan}

abbrev pub in_use : Option Slot → Bool
in_use none = false
in_use (some s) = true

-- The calls in use are `live`, each listed once, and the counters tell how many they are.
pub record Balanced (w : World) (live : List ℕ) : Type 0 where
  pub distinct : Distinct live
  pub listed : (p : ℕ) → among p live ≡ in_use (w.slots p)
  pub counted : w.stats.call_alloc ≡ (w.stats.call_free + length live) % 2 ^ 64

-- Nothing is allocated or freed.
pub record Even (w w' : World) : Type 0 where
  pub used : (p : ℕ) → in_use (w'.slots p) ≡ in_use (w.slots p)
  pub alloc : w'.stats.call_alloc ≡ w.stats.call_alloc
  pub free : w'.stats.call_free ≡ w.stats.call_free

pub Even-Balanced : (w w' : World) (live : List ℕ) → Even w w' → Balanced w live → Balanced w' live
Even-Balanced w w' live e b = record {
  distinct = b.distinct;
  listed = λ p. b.listed p ∙ sym (e.used p);
  counted = e.alloc ∙ b.counted ∙ ap (λ n. (n + length live) % 2 ^ 64) (sym e.free);
}

-- Both allocations and frees are counted in 64 bits.
counts_up : (a f n : ℕ) → a ≡ (f + n) % 2 ^ 64 → inc a ≡ (f + suc n) % 2 ^ 64
counts_up a f n h = omega arith

counts_down : (a f n : ℕ) → a ≡ (f + suc n) % 2 ^ 64 → a ≡ (inc f + n) % 2 ^ 64
counts_down a f n h = omega arith

listed_also :
    (live : List ℕ) (slots : ℕ → Option Slot) (p q : ℕ) (s : Slot)
    → among q live ≡ in_use (slots q)
    → among q (p ∷ live) ≡ in_use (update slots p (some s) q)
listed_also live slots p q s h = ground (arith, h)

listed_less :
    (live : List ℕ) (slots : ℕ → Option Slot) (p q : ℕ)
    → among q live ≡ in_use (slots q)
    → among q (without p live) ≡ in_use (update slots p none q)
listed_less live slots p q h = elim (Bool-cases (q == p)) [
  | inl e ↦ let same : q ≡ p = ground arith in ground (arith, same, among-without_self p live)
  | inr e ↦ ground (arith, h, among-without_ne p q live e)
]

pub alloc-Balanced :
    (w w' : World) (p : ℕ) (s : Slot) (live : List ℕ)
    → w.slots p ≡ none
    → w'.slots ≡ update w.slots p (some s)
    → w'.stats.call_alloc ≡ inc w.stats.call_alloc
    → w'.stats.call_free ≡ w.stats.call_free
    → Balanced w live
    → Balanced w' (p ∷ live)
alloc-Balanced w w' p s live n e a f b = record {
  distinct = (b.listed p ∙ ap in_use n, b.distinct);
  listed = λ q. listed_also live w.slots p q s (b.listed q) ∙ ap (λ f. in_use (f q)) (sym e);
  counted =
      a
      ∙ counts_up w.stats.call_alloc w.stats.call_free (length live) b.counted
      ∙ ap (λ k. (k + suc (length live)) % 2 ^ 64) (sym f);
}

free-Balanced :
    (w w' : World) (p : ℕ) (s : Slot) (live : List ℕ)
    → w.slots p ≡ some s
    → w'.slots ≡ update w.slots p none
    → w'.stats.call_alloc ≡ w.stats.call_alloc
    → w'.stats.call_free ≡ inc w.stats.call_free
    → Balanced w live
    → Balanced w' (without p live)
free-Balanced w w' p s live n e a f b = record {
  distinct = without-Distinct p live b.distinct;
  listed = λ q. listed_less live w.slots p q (b.listed q) ∙ ap (λ f. in_use (f q)) (sym e);
  counted =
      a
      ∙ counts_down w.stats.call_alloc w.stats.call_free (length (without p live)) (
          b.counted
          ∙ ap (λ k. (w.stats.call_free + k) % 2 ^ 64)
              (length-without_member p live b.distinct (b.listed p ∙ ap in_use n)))
      ∙ ap (λ k. (k + length (without p live)) % 2 ^ 64) (sym f);
}

-- What a return from a program that allocates the call `p`, frees it, or does neither, leaves.
pub data Change (p : ℕ) (w w' : World) : Type 0 where
  even : Even w w' → Change p w w'
  frees :
      (s : Slot)
      → w.slots p ≡ some s
      → w'.slots ≡ update w.slots p none
      → w'.stats.call_alloc ≡ w.stats.call_alloc
      → w'.stats.call_free ≡ inc w.stats.call_free
      → Change p w w'

-- Some list of calls balances the world.
abbrev pub Balances : World → Type 0
Balances w = (live : List ℕ) × Balanced w live

pub Change-Balances : (p : ℕ) (w w' : World) → Change p w w' → Balances w → Balances w'
Change-Balances p w w' (even e) (live, b) = (live, Even-Balanced w w' live e b)
Change-Balances p w w' (frees s h e a f) (live, b) =
    (without p live, free-Balanced w w' p s live h e a f b)
