-- ===== src/Tests/Printing.antt =====
-- Runs of the printing of statistics.
use libraft.Prelude.{ℕ, ◌≡◌, refl, List, [], ◌∷◌, some, arith}
use libraft.Text.{codes}
use libraft.Printing.{Token, TokenType, Tokenizer, End, raft_print_stats}
use libraft.Printing.Pairs.{Pair, lines_of, raft_print_stats-Flat}

abbrev text : List ℕ
text = codes "{a:b,c:1}"

abbrev string_at : ℕ → ℕ → Token
string_at start end = record { type = TokenType.string; start = start; end = end; size = 0 }

abbrev object_of : ℕ → Token
object_of size = record { type = TokenType.object; start = 0; end = 9; size = size }

abbrev number : Token
number = record (string_at 7 8) { type = TokenType.primitive }

abbrev pairs : List Pair
pairs = (string_at 1 2, string_at 3 4) ∷ []

abbrev tokens : ℕ → List Token
tokens size = object_of size ∷ string_at 1 2 ∷ string_at 3 4 ∷ string_at 5 6 ∷ number ∷ []

-- A tokenizer that finds these tokens in every text.
abbrev finds : ℕ → Tokenizer
finds size _ = (some 5, tokens size)

raft_print_stats-Flat_example :
    raft_print_stats (finds 1) (some text) ≡ (lines_of text pairs, End.finished)
raft_print_stats-Flat_example =
    raft_print_stats-Flat (finds 1) text 5 (tokens 1) (object_of 1) pairs refl (omega arith) refl
      refl refl ((refl, refl), refl, tt)
