-- ===== src/Example/Merging.antt =====
-- The table of options that the example client's parser is given.
use libraft.Prelude.{
  ◌≡◌, refl, ap, ap₂, Bool, ◌∙◌, sym, ℕ, zero, suc, ◌+◌, ◌<◌, true, false, List, [], ◌∷◌, ◌++◌,
  append_assoc, length, length-append, take, take_prefix, arith, if◌then◌else◌,
}
use libraft.Example.Table.{LongOpt, is_end, Count, count_from, count_opts, Merged, merge_opts}

-- Entries that do not end a table.
abbrev pub Named : List LongOpt → Type 0
Named [] = Unit
Named (o ∷ os) = (is_end o ≡ false) × Named os

count_from_lem :
    (left i : ℕ) (os : List LongOpt) (e : LongOpt) (after : List LongOpt)
    → Named os
    → is_end e ≡ true
    → length os < left
    → count_from left i (os ++ e ∷ after) ≡ Count.counted (i + length os)
unfolding count_from
count_from_lem zero i os e after n f h = absurd (omega arith)
count_from_lem (suc left) i [] e after n f h = ground arith
count_from_lem (suc left) i (o ∷ os) e after n f h =
    ground (arith, n.0, count_from_lem left (i + 1) os e after n.1 f (omega arith))

append-Named : (xs ys : List LongOpt) → Named xs → Named ys → Named (xs ++ ys)
append-Named [] ys n m = m
append-Named (x ∷ xs) ys n m = (n.0, append-Named xs ys n.1 m)

take_through :
    (os : List LongOpt) (e : LongOpt) (after : List LongOpt)
    → take (suc (length os)) (os ++ e ∷ after) ≡ os ++ e ∷ []
take_through [] e after = refl
take_through (o ∷ os) e after = ap (λ l. o ∷ l) (take_through os e after)

count_opts_lem :
    (os : List LongOpt) (e : LongOpt) (after : List LongOpt)
    → Named os
    → is_end e ≡ true
    → length os < 256
    → count_opts (os ++ e ∷ after) ≡ Count.counted (length os)
unfolding count_opts
count_opts_lem os e after n h l =
    count_from_lem 256 0 os e after n h l ∙ ap Count.counted (omega arith)

merge_counted :
    (ok : Bool) (a b : List LongOpt) (n m : ℕ)
    → count_opts a ≡ Count.counted n
    → count_opts b ≡ Count.counted m
    → merge_opts ok a b ≡ (if ok then Merged.merged (take n a ++ take (suc m) b) else Merged.failed)
unfolding merge_opts
merge_counted ok a b n m e f = ground (arith, e, f)

-- Two tables that each end with an entry of an empty name, with less than 256 entries before it,
-- whatever lies behind them in memory: the merged table holds the entries of the first, those of
-- the second and the end of the second, in this order, and no other entry; if the entries are less
-- than 256 together, they are counted. Without memory the result is null.
pub merge_opts_lem :
    (xs ys : List LongOpt) (e f : LongOpt) (after_a after_b : List LongOpt)
    → Named xs
    → Named ys
    → is_end e ≡ true
    → is_end f ≡ true
    → length xs + length ys < 256
    → (merge_opts true (xs ++ e ∷ after_a) (ys ++ f ∷ after_b) ≡ Merged.merged (xs ++ ys ++ f ∷ []))
      × (merge_opts false (xs ++ e ∷ after_a) (ys ++ f ∷ after_b) ≡ Merged.failed)
      × (count_opts (xs ++ ys ++ f ∷ []) ≡ Count.counted (length xs + length ys))
merge_opts_lem xs ys e f after_a after_b n m he hf h =
    let a = count_opts_lem xs e after_a n he (omega arith) in
    let b = count_opts_lem ys f after_b m hf (omega arith) in
    (
      merge_counted true _ _ (length xs) (length ys) a b
          ∙ ap Merged.merged
              (ap₂ ◌++◌ (take_prefix (length xs) xs (e ∷ after_a) refl) (take_through ys f after_b))
          ∙ ap Merged.merged (sym (append_assoc xs ys (f ∷ []))),
      merge_counted false _ _ (length xs) (length ys) a b,
      count_opts_lem (xs ++ ys) f [] (append-Named xs ys n m) hf
            (omega (arith, length-append xs ys))
          ∙ ap Count.counted (length-append xs ys),
    )
