-- ===== src/World.antt =====
-- What libraft's threads and processes share: the slots of shared memory, the scoreboard's queues
-- and flags, the orphans, and what has been given back. An operation maps the world to an outcome.
use libraft.Prelude.{
  ◌≡◌, refl, sym, ◌∙◌, arith, ℕ, ◌+◌, ◌%◌, ◌^◌, Bool, true, false, ◌&&◌, List, ◌∷◌, Option, none,
  some, update, leb, ltb,
}
use libraft.Call.{CallTag}
use libraft.Slot.{Slot}
use libraft.Timings.{Entry}
use libraft.Queue.Blocking.{Queue}
use libraft.Queue.Deque.{Deque}

-- class Stats; a counter has 64 bits.
pub record Stats : Type 0 where
  pub buffer_alloc : ℕ
  pub buffer_free : ℕ
  pub call_alloc : ℕ
  pub call_free : ℕ

abbrev pub inc : ℕ → ℕ
inc c = (c + 1) % 2 ^ 64

-- The queues and flags are class Scoreboard's, but for `is_raft_running`, which only the start reads.
-- `freed_slots` and `freed_buffers` list what went back to the allocators, the latest first, and
-- `stale` the slots whose mutex was unlocked after that. `junk` is what automatic storage holds
-- before it is written.
pub record World : Type 0 where
  pub slots : ℕ → Option Slot
  pub api_queue : Queue (CallTag × ℕ)
  pub fsm_queue : Queue (CallTag × ℕ)
  pub orphaned_calls : Deque ℕ
  pub freed_slots : List ℕ
  pub freed_buffers : List ℕ
  pub stale : List ℕ
  pub stats : Stats
  pub is_leader : Bool
  pub shutdown_requested : Bool
  pub raft_killed : Bool
  pub msg_timing : Bool
  pub shm_base : ℕ
  pub shm_size : ℕ
  pub now : ℕ
  pub junk : List Entry

-- `blocked` is a wait that does not end in the world given, `raised` the exception queue_closed,
-- `aborted` a failed assertion or `abort`, `fault` the use of a slot that is not there.
pub data Outcome {ℓ} (A : Type ℓ) : Type ℓ where
  ret : A → World → Outcome A
  blocked : World → Outcome A
  raised : World → Outcome A
  aborted : World → Outcome A
  fault : World → Outcome A

abbrev pub M : Type 0 → Type 0
M A = World → Outcome A

abbrev pub pure : {A : Type 0} → A → M A
pure a w = ret a w

infixl 5 ◌>>◌ ◌>>=◌
abbrev pub ◌>>=◌ : {R : Type 0} {S : Type 0} → M R → (R → M S) → M S
◌>>=◌ first rest w = elim (first w) [
  | ret r w' ↦ rest r w'
  | raised w' ↦ raised w'
  | blocked w' ↦ blocked w'
  | fault w' ↦ fault w'
  | aborted w' ↦ aborted w'
]

abbrev pub ◌>>◌ : {S : Type 0} → M (Unit {0}) → M S → M S
first >> rest = first >>= λ (_ : Unit {0}). rest

-- An outcome, and what a program that goes on after it makes of it.
abbrev then : {R S : Type 0} → Outcome R → (R → M S) → Outcome S
then (ret r w) rest = rest r w
then (blocked w) rest = blocked w
then (raised w) rest = raised w
then (aborted w) rest = aborted w
then (fault w) rest = fault w

then-ret :
    {R S : Type 0} (o : Outcome R) (rest : R → M S) (s : S) (w' : World)
    → then o rest ≡ ret s w'
    → (r : R) × (v : World) × (o ≡ ret r v) × (rest r v ≡ ret s w')
then-ret (ret r v) rest s w' e = (r, v, refl, e)
then-ret (blocked v) rest s w' e = absurd (ground arith)
then-ret (raised v) rest s w' e = absurd (ground arith)
then-ret (aborted v) rest s w' e = absurd (ground arith)
then-ret (fault v) rest s w' e = absurd (ground arith)

bind-then :
    {R S : Type 0} (first : M R) (rest : R → M S) (w : World)
    → (first >>= rest) w ≡ then (first w) rest
bind-then first rest w = ground arith

-- A program that returns has a first part that returns.
pub bind-ret :
    {R S : Type 0} (first : M R) (rest : R → M S) (w : World) (s : S) (w' : World)
    → (first >>= rest) w ≡ ret s w'
    → (r : R) × (v : World) × (first w ≡ ret r v) × (rest r v ≡ ret s w')
bind-ret first rest w s w' e = then-ret (first w) rest s w' (sym (bind-then first rest w) ∙ e)

then-ext :
    {R S : Type 0} (o : Outcome R) (f g : R → M S)
    → ((r : R) (v : World) → f r v ≡ g r v)
    → then o f ≡ then o g
then-ext (ret r v) f g h = h r v
then-ext (blocked v) f g h = refl
then-ext (raised v) f g h = refl
then-ext (aborted v) f g h = refl
then-ext (fault v) f g h = refl

-- Programs that go on alike, and the grouping of three.
pub bind-ext :
    {R S : Type 0} (first : M R) (f g : R → M S)
    → ((r : R) (v : World) → f r v ≡ g r v)
    → (w : World) → (first >>= f) w ≡ (first >>= g) w
bind-ext first f g h w = bind-then first f w ∙ then-ext (first w) f g h ∙ sym (bind-then first g w)

pub bind_assoc :
    {R S T : Type 0} (first : M R) (f : R → M S) (g : S → M T) (w : World)
    → (first >>= f >>= g) w ≡ (first >>= λ r. f r >>= g) w
bind_assoc first f g w = ground arith

-- The conditional statement.
abbrev pub branch : {A : Type 0} → Bool → M A → M A → M A
branch true m k w = m w
branch false m k w = k w

abbrev pub given : {A B : Type 0} → Option A → (A → M B) → M B → M B
given (some a) f k w = f a w
given none f k w = k w

abbrev pub assert : Bool → M (Unit {0})
assert true w = ret tt w
assert false w = aborted w

-- `*p` as a slot, and the slot changed.
abbrev pub slot_at : ℕ → M Slot
slot_at p w = elim (w.slots p) [ none ↦ fault w | some s ↦ ret s w ]

abbrev pub put_slot : ℕ → Slot → M (Unit {0})
put_slot p s w = ret tt (record w { slots = update w.slots p (some s) })

-- Whether an address lies in the mapped file.
unfoldable pub in_shm_bounds : World → ℕ → Bool
in_shm_bounds w ptr = leb w.shm_base ptr && ltb ptr (w.shm_base + w.shm_size)

unfoldable pub free_buf : ℕ → M (Unit {0})
free_buf buf w = ret tt (record w {
  freed_buffers = buf ∷ w.freed_buffers;
  stats = record w.stats { buffer_free = inc w.stats.buffer_free };
})

-- `allocate_buf`; `buf` is the address that the segment's allocator picks.
unfoldable pub allocate_buf : ℕ → M ℕ
allocate_buf buf w =
    ret buf (record w { stats = record w.stats { buffer_alloc = inc w.stats.buffer_alloc } })

-- The functions of the C interface over these two.
abbrev pub alloc_raft_buffer : ℕ → M ℕ
alloc_raft_buffer buf = allocate_buf buf

abbrev pub free_raft_buffer : ℕ → M (Unit {0})
free_raft_buffer buf = free_buf buf

-- `Call::allocator->deallocate_one(this)` and the counter after it.
unfoldable pub deallocate : ℕ → M (Unit {0})
deallocate p w = ret tt (record w {
  slots = update w.slots p none;
  freed_slots = p ∷ w.freed_slots;
  stats = record w.stats { call_free = inc w.stats.call_free };
})
