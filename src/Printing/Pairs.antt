-- ===== src/Printing/Pairs.antt =====
-- What is printed of an object whose keys and values are strings.
use libraft.Prelude.{
  ℕ, suc, ◌+◌, ◌*◌, ◌≡◌, ◌<◌, refl, ap, ◌∙◌, arith, Bool, true, false, ◌&&◌, List, [], ◌∷◌, some,
  length, get_elem?, if◌then◌else◌,
}
use libraft.Printing.{
  Token, TokenType, Tokenizer, Printed, End, text_of, is_string, line, entries, raft_print_stats,
}

abbrev pub Pair : Type 0
Pair = Token × Token

abbrev pub lines_of : List ℕ → List Pair → List (List ℕ × List ℕ)
lines_of stats [] = []
lines_of stats ((k, v) ∷ ps) = (text_of stats k, text_of stats v) ∷ lines_of stats ps

abbrev pub both_strings : Pair → Bool
both_strings (k, v) = is_string k.type && is_string v.type

-- The pair stands in the array as entry number `key` of the object.
abbrev pub IsEntry : List Token → ℕ → Pair → Type 0
IsEntry tokens key (k, v) =
    (get_elem? tokens (1 + 2 * key) ≡ some k) × (get_elem? tokens (1 + 2 * key + 1) ≡ some v)

-- The entries of the object from number `key` on are these pairs of strings.
abbrev pub Flat : List Token → ℕ → List Pair → Type 0
Flat tokens key [] = Unit
Flat tokens key (p ∷ ps) = IsEntry tokens key p × (both_strings p ≡ true) × Flat tokens (key + 1) ps

abbrev before : List (List ℕ × List ℕ) → Printed → Printed
before [] r = r
before (l ∷ ls) r = line l (before ls r)

before-pair : (ls : List (List ℕ × List ℕ)) (e : End) → before ls ([], e) ≡ (ls, e)
before-pair [] e = refl
before-pair (l ∷ ls) e = ap (line l) (before-pair ls e)

entries-IsEntry :
    (stats : List ℕ) (tokens : List Token) (key left : ℕ) (k v : Token)
    → IsEntry tokens key (k, v)
    → entries stats tokens key (suc left) ≡ (
        if both_strings (k, v)
        then line (text_of stats k, text_of stats v) (entries stats tokens (key + 1) left)
        else ([], End.unexpected k.start))
unfolding entries
entries-IsEntry stats tokens key left k v i = ground (arith, i.0, i.1)

entries-both_strings :
    (stats : List ℕ) (tokens : List Token) (key left : ℕ) (k v : Token)
    → IsEntry tokens key (k, v)
    → both_strings (k, v) ≡ true
    → entries stats tokens key (suc left)
      ≡ line (text_of stats k, text_of stats v) (entries stats tokens (key + 1) left)
unfolding entries
entries-both_strings stats tokens key left k v i s = ground (arith, i.0, i.1)

-- The loop prints the pairs at its place and goes on after them.
entries-Flat :
    (stats : List ℕ) (tokens : List Token) (key left : ℕ) (ps : List Pair)
    → Flat tokens key ps
    → entries stats tokens key (length ps + left)
      ≡ before (lines_of stats ps) (entries stats tokens (key + length ps) left)
unfolding entries
entries-Flat stats tokens key left [] f = ground arith
entries-Flat stats tokens key left ((k, v) ∷ ps) (i, s, f) =
    let e₁ : suc (length ps) + left ≡ suc (length ps + left) = omega arith in
    let e₂ : key + 1 + length ps ≡ key + suc (length ps) = omega arith in
    ap (entries stats tokens key) e₁
    ∙ entries-both_strings stats tokens key (length ps + left) k v i s
    ∙ ap (line (text_of stats k, text_of stats v)) (
        entries-Flat stats tokens (key + 1) left ps f
        ∙ ap (λ m. before (lines_of stats ps) (entries stats tokens m left)) e₂)

-- A text that the tokenizer reads as an object whose keys and values are all strings is printed in
-- full: one line for each entry, in order, with the texts that the tokens stand for.
pub raft_print_stats-Flat :
    (jsmn_parse : Tokenizer) (stats : List ℕ) (n : ℕ) (tokens : List Token) (object : Token)
    (ps : List Pair)
    → jsmn_parse stats ≡ (some n, tokens)
    → 0 < n
    → get_elem? tokens 0 ≡ some object
    → object.type ≡ TokenType.object
    → object.size ≡ length ps
    → Flat tokens 0 ps
    → raft_print_stats jsmn_parse (some stats) ≡ (lines_of stats ps, End.finished)
unfolding raft_print_stats entries
raft_print_stats-Flat jsmn_parse stats n tokens object ps e pos o t s f =
    let p : entries stats tokens 0 (length ps) ≡ (lines_of stats ps, End.finished) =
      ground
        (arith, entries-Flat stats tokens 0 0 ps f, before-pair (lines_of stats ps) End.finished) in
    ground (arith, p)

-- An object with an entry that is not a pair of strings after `ps` that are: the lines for `ps` are
-- printed, and the end is the complaint about the place where that entry's key starts.
pub raft_print_stats-unexpected :
    (jsmn_parse : Tokenizer) (stats : List ℕ) (n left : ℕ) (tokens : List Token) (object : Token)
    (ps : List Pair) (k v : Token)
    → jsmn_parse stats ≡ (some n, tokens)
    → 0 < n
    → get_elem? tokens 0 ≡ some object
    → object.type ≡ TokenType.object
    → object.size ≡ length ps + suc left
    → Flat tokens 0 ps
    → IsEntry tokens (length ps) (k, v)
    → both_strings (k, v) ≡ false
    → raft_print_stats jsmn_parse (some stats) ≡ (lines_of stats ps, End.unexpected k.start)
unfolding raft_print_stats
raft_print_stats-unexpected jsmn_parse stats n left tokens object ps k v e pos o t s f i b =
    let p : entries stats tokens 0 (length ps + suc left)
        ≡ (lines_of stats ps, End.unexpected k.start) =
      ground (
        arith,
        entries-Flat stats tokens 0 (suc left) ps f,
        entries-IsEntry stats tokens (length ps) left k v i,
        before-pair (lines_of stats ps) (End.unexpected k.start),
      ) in
    ground (arith, p)
