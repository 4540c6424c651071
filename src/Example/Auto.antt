-- ===== src/Example/Auto.antt =====
-- What the commands of the example client's automatic run count to.
use libraft.Prelude.{
  ◌≡◌, refl, ap, ◌∙◌, ℕ, suc, ◌+◌, ◌*◌, ◌%◌, ◌^◌, ◌<◌, false, List, [], ◌∷◌, ◌++◌, Option, length,
  arith,
}
use libraft.Text.Copies.{NoNul}
use libraft.Config.SizeSuffix.{Digits}
use libraft.Slot.{Slot}
use libraft.Queue.Blocking.Represents.{Represents}
use libraft.Request.{queue_capacity}
use libraft.World.{World, ret}
use libraft.Fsm.{run_fsm_worker}
use libraft.Fsm.Answers.{Command, queued, Asked}
use libraft.Example.Machine.{Machine, Source, digits, fsm_def}
use libraft.Example.RoundTrip.{digits-Digits}
use libraft.Example.Letters.{
  bytes, before_nul, letters, letters_of, Gives, Counts, commands_counted,
}
use libraft.Example.Commands.{command_text}
use libraft.Example.Typed.{letters-append, before_nul-append}

Digits-NoNul : (s : List ℕ) → Digits s → NoNul s
Digits-NoNul [] d = tt
Digits-NoNul (c ∷ s) d = (λ e. absurd (ground (arith, d.0)), Digits-NoNul s d.1)

Digits-letters : (s : List ℕ) → Digits s → letters s ≡ 0
Digits-letters [] d = refl
Digits-letters (c ∷ s) d = ground (arith, d.0, Digits-letters s d.1)

eleven_more :
    (n : ℕ) → n ≡ 0 → suc (suc (suc (suc (suc (suc (suc (suc (suc (suc (suc n)))))))))) ≡ 11
eleven_more n e = omega arith

-- The letters of "Raft command #".
command_text-letters :
    (i : ℕ) (rest : List ℕ) → letters (before_nul (command_text i ++ 0 ∷ rest)) ≡ 11
unfolding command_text
command_text-letters i rest =
    let d = digits-Digits 9 i in
    let e = before_nul-append (digits 9 i) (0 ∷ rest) (Digits-NoNul (digits 9 i) d) in
    let l = letters-append (digits 9 i) [] in
    let z : letters (before_nul (digits 9 i ++ 0 ∷ rest)) ≡ 0 =
      ap letters e ∙ l ∙ ap (λ k. k + 0) (Digits-letters (digits 9 i) d) in
    eleven_more (letters (before_nul (digits 9 i ++ 0 ∷ rest))) z

module _ (memory : ℕ → ℕ) (malloc : Machine → ℕ) (write : ℕ) (fopen : List ℕ → Option Source)
    (address_of : ℕ → ℕ) where
  -- The buffers of the commands hold the texts of the rounds from `i` on.
  abbrev pub Carries : ℕ → List Command → Type 0
  Carries i [] = Unit
  Carries i (c ∷ cs) =
      ((rest : List ℕ) × (bytes memory (address_of c.data_buf) c.data_len
          ≡ command_text i ++ 0 ∷ rest))
      × Carries (i + 1) cs

  eleven : (n k : ℕ) → ((n + 11) % 2 ^ 32 + 11 * k) % 2 ^ 32 ≡ (n + 11 * suc k) % 2 ^ 32
  eleven n k = omega arith

  Counts-total :
      (m : Machine) (slots : ℕ → Option Slot) (n i : ℕ) (cs : List Command)
      → n < 2 ^ 32
      → Carries i cs
      → Counts memory malloc write fopen address_of m slots n cs
      → m.letter_count ≡ (n + 11 * length cs) % 2 ^ 32
  Counts-total m slots n i [] h t c = ground (arith, c)
  Counts-total m slots n i (d ∷ ds) h ((rest, e), t) (_, c) =
      let l : letters_of memory malloc write fopen address_of d ≡ 11 =
        ap (λ b. letters (before_nul b)) e ∙ command_text-letters i rest in
      let total =
        Counts-total m slots ((n + letters_of memory malloc write fopen address_of d) % 2 ^ 32)
          (i + 1) ds (omega arith) t c in
      total ∙ ap (λ k. ((n + k) % 2 ^ 32 + 11 * length ds) % 2 ^ 32) l ∙ eleven n (length ds)

  -- With commands of rounds from `i` on queued at different slots that are pending, memory for each
  -- count, and a machine that counts in 32 bits: the worker's next rounds, one for each command,
  -- succeed, and each command adds the eleven letters of its text to the count, in 32 bits.
  pub auto_counted :
      (w : World) (m : Machine) (i : ℕ) (cs : List Command)
      → Represents queue_capacity w.fsm_queue (queued cs)
      → w.fsm_queue.closed ≡ false
      → Asked w.slots cs
      → m.letter_count < 2 ^ 32
      → Gives memory malloc write fopen address_of m cs
      → Carries i cs
      → (w' : World) × (m' : Machine) × (run_fsm_worker address_of
            (fsm_def memory malloc write fopen)
            (length cs)
            m
            w
          ≡ ret m' w')
        × (m'.letter_count ≡ (m.letter_count + 11 * length cs) % 2 ^ 32)
        × Represents queue_capacity w'.fsm_queue []
  auto_counted w m i cs r e k h g t =
      let (w', m', f, c, r') =
        commands_counted memory malloc write fopen address_of w m cs r e k h g in
      (w', m', f, Counts-total m' w'.slots m.letter_count i cs h t c, r')
