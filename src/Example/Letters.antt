-- ===== src/Example/Letters.antt =====
-- The example client's machine under the library's FSM worker: what the commands of the log count to.
use libraft.Prelude.{
  ◌≡◌, ◌≢◌, refl, sym, ap, ◌∙◌, subst, ℕ, zero, suc, ◌+◌, ◌%◌, ◌^◌, ◌<◌, ◌==◌, false, List, [], ◌∷◌,
  Option, none, some, update, update_self, update_ne, arith, if◌then◌else◌, length,
}
use libraft.Queue.Blocking.Represents.{Represents}
use libraft.Request.{queue_capacity}
use libraft.Slot.{Slot}
use libraft.Future.Results.{==_false}
use libraft.World.{World, ret}
use libraft.Fsm.{run_fsm_worker}
use libraft.Fsm.Answers.{
  Command, queued, Asked, Answered, AllAnswered, apply_one, replay, commands_applied,
}
use libraft.Example.Machine.{
  Machine, Source, is_alpha, count_letters, update_count, fsm_apply, fsm_def,
}

-- The bytes of a command, and those before the first NUL.
abbrev pub bytes : (ℕ → ℕ) → ℕ → ℕ → List ℕ
bytes memory buf zero = []
bytes memory buf (suc left) = memory buf ∷ bytes memory (buf + 1) left

abbrev pub before_nul : List ℕ → List ℕ
before_nul [] = []
before_nul (c ∷ cs) = let rest = before_nul cs in if c == 0 then [] else c ∷ rest

abbrev pub letters : List ℕ → ℕ
letters [] = 0
letters (c ∷ cs) = if is_alpha c then suc (letters cs) else letters cs

count_letters_lem :
    (memory : ℕ → ℕ) (buf left count : ℕ)
    → count < 2 ^ 32
    → count_letters memory buf left count
      ≡ (count + letters (before_nul (bytes memory buf left))) % 2 ^ 32
unfolding count_letters
count_letters_lem memory buf zero count h = omega arith
count_letters_lem memory buf (suc left) count h = ground (
  arith,
  count_letters_lem memory (buf + 1) left count h,
  count_letters_lem memory (buf + 1) left ((count + 1) % 2 ^ 32) (omega arith),
)

module _ (memory : ℕ → ℕ) (malloc : Machine → ℕ) (write : ℕ) (fopen : List ℕ → Option Source)
    (address_of : ℕ → ℕ) where
  -- The letters of a command.
  abbrev pub letters_of : Command → ℕ
  letters_of c = letters (before_nul (bytes memory (address_of c.data_buf) c.data_len))

  -- The machine with a command counted, as `malloc` finds it.
  abbrev pub counted : Machine → Command → Machine
  counted m c = record m {
    letter_count = count_letters memory (address_of c.data_buf) c.data_len m.letter_count;
  }

  abbrev pub next : Machine → Command → Machine × ℕ
  next m c = apply_one address_of (fsm_def memory malloc write fopen) m c

  -- For each command `malloc` gives memory, which is not in use.
  abbrev pub Gives : Machine → List Command → Type 0
  Gives m [] = Unit
  Gives m (c ∷ cs) =
      (malloc (counted m c) ≢ 0) × (m.cells (malloc (counted m c)) ≡ none) × Gives (next m c).0 cs

  -- Each command is answered with memory that holds the count after it, `n` before the first, and
  -- the last count is the machine's.
  abbrev pub Counts : Machine → (ℕ → Option Slot) → ℕ → List Command → Type 0
  Counts m slots n [] = m.letter_count ≡ n
  Counts m slots n (c ∷ cs) =
      ((p : ℕ) × Answered slots c p × (m.cells p ≡ some ((n + letters_of c) % 2 ^ 32)))
      × Counts m slots ((n + letters_of c) % 2 ^ 32) cs

  next-counted :
      (m : Machine) (c : Command)
      → m.letter_count < 2 ^ 32
      → malloc (counted m c) ≢ 0
      → ((next m c).1 ≡ malloc (counted m c))
        × ((next m c).0.letter_count ≡ (m.letter_count + letters_of c) % 2 ^ 32)
        × ((next m c).0.cells
            ≡ update m.cells
                (malloc (counted m c))
                (some ((m.letter_count + letters_of c) % 2 ^ 32)))
  unfolding fsm_apply update_count
  next-counted m c h nz =
      let n = count_letters_lem memory (address_of c.data_buf) c.data_len m.letter_count h in
      (ground (arith, ==_false nz), ground (arith, n, ==_false nz), ground (arith, n, ==_false nz))

  -- Memory in use keeps its value.
  replay-cells :
      (m : Machine) (cs : List Command) (q v : ℕ)
      → m.letter_count < 2 ^ 32
      → Gives m cs
      → m.cells q ≡ some v
      → (replay address_of (fsm_def memory malloc write fopen) m cs).cells q ≡ some v
  replay-cells m [] q v h g e = e
  replay-cells m (c ∷ cs) q v h (nz, fresh, g) e =
      let (_, n, k) = next-counted m c h nz in
      replay-cells (next m c).0 cs q v (subst (λ x. x < 2 ^ 32) (sym n) (omega arith)) g (
        ap (λ f. f q) k
        ∙ update_ne m.cells (some _)
            (λ x. absurd (ground (arith, sym e ∙ ap m.cells (sym x) ∙ fresh)))
        ∙ e)

  replay-Counts :
      (m : Machine) (slots : ℕ → Option Slot) (cs : List Command)
      → m.letter_count < 2 ^ 32
      → Gives m cs
      → AllAnswered address_of (fsm_def memory malloc write fopen) slots m cs
      → Counts (replay address_of (fsm_def memory malloc write fopen) m cs) slots m.letter_count cs
  replay-Counts m slots [] h g a = refl
  replay-Counts m slots (c ∷ cs) h (nz, fresh, g) (a, later) =
      let (p, n, k) = next-counted m c h nz in
      let small : (next m c).0.letter_count < 2 ^ 32 =
        subst (λ x. x < 2 ^ 32) (sym n) (omega arith) in
      (
        (
          (next m c).1,
          a,
          replay-cells (next m c).0 cs (next m c).1 ((m.letter_count + letters_of c) % 2 ^ 32) small
              g
              (ap (λ f. f (next m c).1) k
                ∙ ap (update m.cells (malloc (counted m c)) (some _)) p
                ∙ update_self m.cells (malloc (counted m c)) (some _)),
        ),
        subst
            (λ x.
              Counts (replay address_of (fsm_def memory malloc write fopen) (next m c).0 cs) slots x
                cs)
            n (replay-Counts (next m c).0 slots cs small g later),
      )

  -- With commands of the log queued at different slots that are pending, the example client's machine
  -- counting in 32 bits, and memory for each count: the worker's next rounds, one for each command,
  -- succeed. Each slot holds success and an address where the count is found that the machine had
  -- after that command, which is the count before the first one and the letters of the commands so
  -- far, each up to its first NUL or its length, taken in 32 bits; the machine has the last count.
  pub commands_counted :
      (w : World) (m : Machine) (cs : List Command)
      → Represents queue_capacity w.fsm_queue (queued cs)
      → w.fsm_queue.closed ≡ false
      → Asked w.slots cs
      → m.letter_count < 2 ^ 32
      → Gives m cs
      → (w' : World) × (m' : Machine) × (run_fsm_worker address_of
            (fsm_def memory malloc write fopen)
            (length cs)
            m
            w
          ≡ ret m' w')
        × Counts m' w'.slots m.letter_count cs
        × Represents queue_capacity w'.fsm_queue []
  commands_counted w m cs r e k h g =
      let fsm = fsm_def memory malloc write fopen in
      let (w', f, a, r', _) = commands_applied address_of fsm w m cs r e k in
      (w', replay address_of fsm m cs, f, replay-Counts m w'.slots cs h g a, r')
