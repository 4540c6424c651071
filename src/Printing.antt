-- ===== src/Printing.antt =====
-- `raft_print_stats` of raft_c_if.cc. The JSON tokenizer that it calls is an argument.
pub mod Pairs
use libraft.Prelude.{
  ℕ, ◌+◌, ◌-◌, ◌*◌, Bool, true, false, ◌&&◌, List, [], ◌∷◌, Option, none, some, get_elem?, take,
  drop, ◌==◌, ltb, if◌then◌else◌,
}

-- jsmntok_t: `start` and `end` are places in the text.
pub data TokenType : Type 0 where
  primitive object array string : TokenType

pub record Token : Type 0 where
  pub type : TokenType
  pub start : ℕ
  pub end : ℕ
  pub size : ℕ

-- What `jsmn_parse` returns for a text, none for a negative number, and the array of tokens as it
-- leaves it.
abbrev pub Tokenizer : Type 0
Tokenizer = List ℕ → Option ℕ × List Token

-- How the function ends: the pointer was null, the text is no JSON or no object, an entry was not a
-- pair of strings, a token was read outside the array, or all was printed.
pub data End : Type 0 where
  invalid_pointer parsing_error invalid_data fault finished : End
  unexpected : ℕ → End

-- The lines that were printed, as pairs of texts, and the end.
abbrev pub Printed : Type 0
Printed = List (List ℕ × List ℕ) × End

abbrev pub is_string : TokenType → Bool
is_string TokenType.string = true
is_string _ = false

abbrev is_object : TokenType → Bool
is_object TokenType.object = true
is_object _ = false

-- `std::string(&stats[t.start], t.end - t.start)`
abbrev pub text_of : List ℕ → Token → List ℕ
text_of stats t = take (t.end - t.start) (drop t.start stats)

abbrev pub line : List ℕ × List ℕ → Printed → Printed
line l (ls, e) = (l ∷ ls, e)

abbrev entry : List ℕ → Option Token → Option Token → Printed → Printed
entry stats (some k) (some v) rest =
    if is_string k.type && is_string v.type
    then line (text_of stats k, text_of stats v) rest
    else ([], unexpected k.start)
entry stats _ _ rest = ([], fault)

-- The loop over the keys, with `left` of them to go from number `key` on.
unfoldable pub entries : List ℕ → List Token → ℕ → ℕ → Printed
entries stats tokens key ℕ.zero = ([], finished)
entries stats tokens key (ℕ.suc left) =
    let rest = entries stats tokens (key + 1) left in
    entry stats (get_elem? tokens (1 + 2 * key)) (get_elem? tokens (1 + 2 * key + 1)) rest

abbrev first_token : List ℕ → List Token → Option Token → Printed
first_token stats tokens none = ([], fault)
first_token stats tokens (some t) =
    if is_object t.type then entries stats tokens 0 t.size else ([], invalid_data)

abbrev parsed : List ℕ → Option ℕ × List Token → Printed
parsed stats (none, tokens) = ([], parsing_error)
parsed stats (some n, tokens) =
    if ltb n 1 then ([], parsing_error) else first_token stats tokens (get_elem? tokens 0)

-- `none` is the null pointer.
unfoldable pub raft_print_stats : Tokenizer → Option (List ℕ) → Printed
unfolding entries
raft_print_stats jsmn_parse none = ([], invalid_pointer)
raft_print_stats jsmn_parse (some stats) = parsed stats (jsmn_parse stats)
