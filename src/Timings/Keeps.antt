-- ===== src/Timings/Keeps.antt =====
-- Which moments a call's Timings keeps, and in what order.
use libraft.Prelude.{
  ℕ, zero, suc, ◌≤◌, ◌<◌, ◌≡◌, refl, ap, ◌∙◌, List, [], ◌∷◌, ◌++◌, map, take, length, arith,
  append-nil, append_assoc, dec_lt, sym, take_all, take_prefix, take-take-append, length-map,
  length-take, length-append,
}
use libraft.Text.{strncpy}
use libraft.Timings.{Entry, Timings, max_ent, zeroed, change, record_at}

-- The recorded times, in the order of the array.
abbrev pub stamps : Timings → List ℕ
stamps r = map (λ e. e.ts) (take r.n_entries r.entries)

-- A run of `record`s.
unfoldable pub record_all : Timings → List (List ℕ × ℕ) → Timings
record_all r [] = r
record_all r ((tag, t) ∷ rest) = record_all (record_at r tag t) rest

pub record IsSound (r : Timings) : Type 0 where
  pub room : length r.entries ≡ max_ent
  pub within : r.n_entries ≤ max_ent

length-change : (i : ℕ) (f : Entry → Entry) (es : List Entry) → length (change i f es) ≡ length es
unfolding change
length-change i f [] = refl
length-change zero f (e ∷ es) = refl
length-change (suc i) f (e ∷ es) = ap suc (length-change i f es)

record_at-IsSound : (r : Timings) (tag : List ℕ) (t : ℕ) → IsSound r → IsSound (record_at r tag t)
unfolding record_at
record_at-IsSound r tag t v = ground (
  arith,
  length-change r.n_entries (λ e. record { tag = strncpy e.tag tag 19; ts = t }) r.entries,
)

take-change :
    (i : ℕ) (f : Entry → Entry) (t : ℕ) (es : List Entry)
    → i < length es
    → ((e : Entry) → (f e).ts ≡ t)
    → map (λ e. e.ts) (take (suc i) (change i f es)) ≡ map (λ e. e.ts) (take i es) ++ t ∷ []
unfolding change
take-change i f t [] h s = absurd (omega arith)
take-change zero f t (e ∷ es) h s = ap (λ (x : ℕ). x ∷ []) (s e)
take-change (suc i) f t (e ∷ es) h s = ap (◌∷◌ e.ts) (take-change i f t es (omega arith) s)

length-stamps : (r : Timings) → IsSound r → length (stamps r) ≡ r.n_entries
length-stamps r v = omega (
  arith,
  length-map (take r.n_entries r.entries) (λ e. e.ts),
  length-take r.n_entries r.entries,
  v,
)

fill : List ℕ → ℕ → Entry → Entry
fill tag t e = record { tag = strncpy e.tag tag 19; ts = t }

record_at-full :
    (r : Timings) (tag : List ℕ) (t : ℕ) → max_ent ≤ r.n_entries → record_at r tag t ≡ r
unfolding record_at
record_at-full r tag t h = ground arith

record_at-room :
    (r : Timings) (tag : List ℕ) (t : ℕ)
    → r.n_entries < max_ent
    → record_at r tag t
      ≡ record { n_entries = suc r.n_entries; entries = change r.n_entries (fill tag t) r.entries }
unfolding record_at fill
record_at-room r tag t h = ground arith

stamps-record_at :
    (r : Timings) (tag : List ℕ) (t : ℕ)
    → IsSound r
    → stamps (record_at r tag t) ≡ take max_ent (stamps r ++ t ∷ [])
unfolding fill
stamps-record_at r tag t v = elim (dec_lt r.n_entries max_ent) [
  | yes lt ↦
      ap stamps (record_at-room r tag t lt)
      ∙ take-change r.n_entries (fill tag t) t r.entries (omega arith) (λ e. refl)
      ∙ sym (
          take_all max_ent (stamps r ++ t ∷ [])
            (omega (arith, length-append (stamps r) (t ∷ []), length-stamps r v)))
  | no ge ↦
      ap stamps (record_at-full r tag t (omega arith))
      ∙ sym (take_prefix max_ent (stamps r) (t ∷ []) (omega (arith, length-stamps r v)))
]

record_all-stamps :
    (n : ℕ) (r : Timings) (l : List (List ℕ × ℕ))
    → n ≡ max_ent
    → IsSound r
    → (stamps (record_all r l) ≡ take n (stamps r ++ map (λ p. p.1) l)) × IsSound (record_all r l)
unfolding record_all
record_all-stamps n r [] e v =
    (sym (rw append-nil (take_all n (stamps r) (omega (arith, length-stamps r v)))), v)
record_all-stamps n r ((tag, t) ∷ l) e v = (
  (record_all-stamps n (record_at r tag t) l e (record_at-IsSound r tag t v)).0
      ∙ ap (λ xs. take n (xs ++ map (λ p. p.1) l))
          (stamps-record_at r tag t v ∙ ap (λ (k : ℕ). take k (stamps r ++ t ∷ [])) (sym e))
      ∙ take-take-append n (stamps r ++ t ∷ []) (map (λ p. p.1) l)
      ∙ ap (take n) (append_assoc (stamps r) (t ∷ []) (map (λ p. p.1) l)),
  (record_all-stamps n (record_at r tag t) l e (record_at-IsSound r tag t v)).1,
)

-- Every run of records from the zeroed state keeps the first 32 times in order and drops the rest,
-- and stays within the array.
pub record_all_keeps :
    (l : List (List ℕ × ℕ))
    → (stamps (record_all zeroed l) ≡ take max_ent (map (λ p. p.1) l))
      × IsSound (record_all zeroed l)
record_all_keeps l =
    record_all-stamps max_ent zeroed l refl (record { room = refl; within = omega arith })
