-- ===== src/Queue/Blocking/Represents.antt =====
-- When the array and the two indices hold a given list, oldest first.
use libraft.Prelude.{
  ℕ, ◌+◌, ◌-◌, ◌≤◌, ◌<◌, ◌≡◌, ◌≢◌, refl, List, [], ◌∷◌, ◌++◌, some, arith, length, length-append,
  length-set, get_elem?, set, get_elem?-set_self, get_elem?-set_ne, ltb, if◌then◌else◌,
}
use libraft.Queue.Blocking.{Queue, word, store, fetch, done}

-- The index `n` places after `t`, going round at `limit` (for `n ≤ limit`).
abbrev pub pos : ℕ → ℕ → ℕ → ℕ
pos limit t n = if ltb (t + n) limit then t + n else t + n - limit

module _ {A : Type 0} where
  abbrev pub Holds : ℕ → List A → ℕ → List A → Type 0
  Holds limit array t [] = Unit
  Holds limit array t (x ∷ xs) = (get_elem? array t ≡ some x) × Holds limit array (pos limit t 1) xs

  pub record Represents (limit : ℕ) (q : Queue A) (xs : List A) : Type 0 where
    pub storage : length q.array ≡ limit
    pub small : limit < word
    pub tail_in : q.tail < limit
    pub counted : q.count ≡ length xs
    pub fits : length xs ≤ limit
    pub head_at : q.head ≡ pos limit q.tail (length xs)
    pub held : Holds limit q.array q.tail xs

  -- A write just past the stretch extends it by that value.
  Holds-set :
      (limit : ℕ) (array : List A) (t i : ℕ) (v : A) (xs : List A)
      → length array ≡ limit
      → t < limit
      → length xs < limit
      → i ≡ pos limit t (length xs)
      → Holds limit array t xs
      → Holds limit (set array i v) t (xs ++ v ∷ [])
  Holds-set limit array t i v [] e ht hn ei h = (ground (arith, get_elem?-set_self array i v), tt)
  Holds-set limit array t i v (x ∷ xs) e ht hn ei h = (
    ground (arith, get_elem?-set_ne array {i = i} {j = t} v),
    Holds-set limit array (pos limit t 1) i v xs e (ground arith) (ground arith) (ground arith) h.1,
  )

  pub store-Represents :
      (limit : ℕ) (q : Queue A) (v : A) (xs : List A)
      → Represents limit q xs
      → q.count ≢ limit
      → Represents limit (store limit q v) (xs ++ v ∷ [])
  unfolding store
  store-Represents limit q v xs r ne = record {
    storage = ground (arith, length-set q.array q.head v);
    small = r.small;
    tail_in = r.tail_in;
    counted = ground (arith, length-append xs (v ∷ []));
    fits = ground (arith, length-append xs (v ∷ []));
    head_at = ground (arith, length-append xs (v ∷ []));
    held = ground (
      arith,
      Holds-set limit q.array q.tail q.head v xs r.storage r.tail_in (omega arith) r.head_at r.held,
    );
  }

  -- A read at the tail splits off the oldest value.
  pub fetch-Represents :
      (limit : ℕ) (q : Queue A) (x : A) (xs : List A)
      → Represents limit q (x ∷ xs)
      → (q' : Queue A) × (fetch limit q ≡ done (x, q'))
        × Represents limit q' xs
        × (q'.closed ≡ q.closed)
  unfolding fetch
  fetch-Represents limit q x xs r = (
    record q { tail = pos limit q.tail 1; count = length xs },
    ground arith,
    record {
      storage = r.storage;
      small = r.small;
      tail_in = ground arith;
      counted = refl;
      fits = omega arith;
      head_at = ground arith;
      held = r.held.1;
    },
    refl,
  )
