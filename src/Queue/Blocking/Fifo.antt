-- ===== src/Queue/Blocking/Fifo.antt =====
-- What ArrayBlockingQueue promises: a first-in first-out line of at most `limit` values that can be
-- closed for good. A history of calls by one thread, and what each call answers.
use libraft.Prelude.{ℕ, Bool, true, List, [], ◌∷◌, ◌++◌, length, ◌==◌, if◌then◌else◌}

pub data Op {ℓ} (A : Type ℓ) : Type ℓ where
  puts : A → Op A
  takes : Op A
  closes : Op A

pub data Reply {ℓ} (A : Type ℓ) : Type ℓ where
  accepted : Reply A
  got : A → Reply A
  would_wait : Reply A
  raised : Reply A
  broken : Reply A

pub record Fifo {ℓ} (A : Type ℓ) : Type ℓ where
  pub items : List A
  pub closed : Bool

module _ {ℓ} {A : Type ℓ} where
  abbrev front : Fifo A → List A → Fifo A × Reply A
  front f [] = (f, would_wait)
  front f (x ∷ xs) = (record f { items = xs }, got x)

  unfoldable pub step : ℕ → Fifo A → Op A → Fifo A × Reply A
  step limit f (puts v) =
      if f.closed
      then (f, raised)
      else if length f.items == limit
      then (f, would_wait)
      else (record f { items = f.items ++ v ∷ [] }, accepted)
  step limit f takes = if f.closed then (f, raised) else front f f.items
  step limit f closes = (record f { closed = true }, accepted)

  unfoldable pub run : ℕ → Fifo A → List (Op A) → List (Reply A)
  run limit f [] = []
  run limit f (o ∷ os) = let (f', r) = step limit f o in r ∷ run limit f' os
