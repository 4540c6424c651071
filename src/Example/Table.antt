-- ===== src/Example/Table.antt =====
-- The tables of options of raft_client.c: merged for the parser, and printed as help.
use libraft.Prelude.{
  ℕ, zero, suc, ◌+◌, Bool, true, List, [], ◌∷◌, ◌++◌, map, Option, none, some, take, ◌==◌,
  if◌then◌else◌,
}
use libraft.Text.{codes}
use libraft.Config.Options
use libraft.Config.Options.{raft_apply_option, is_valid}

-- struct option: its flag is always null.
pub record LongOpt : Type 0 where
  pub name : List ℕ
  pub has_arg : ℕ
  pub val : ℕ

abbrev pub no_argument : ℕ
no_argument = 0

abbrev pub required_argument : ℕ
required_argument = 1

abbrev pub optional_argument : ℕ
optional_argument = 2

abbrev entry : List ℕ → ℕ → ℕ → LongOpt
entry n a v = record { name = n; has_arg = a; val = v }

abbrev pub long_opts : List LongOpt
long_opts =
    entry (codes "runs") required_argument b'r'
    ∷ entry (codes "snapshots") required_argument b's'
    ∷ entry (codes "wait") required_argument b'w'
    ∷ entry (codes "interactive") no_argument b'i'
    ∷ entry (codes "help") no_argument b'h'
    ∷ entry [] 0 0
    ∷ []

-- `raft_getopt_long_opts`: the library's table.
abbrev pub raft_getopt_long_opts : List LongOpt
raft_getopt_long_opts =
    map
      (λ (o : Options.LongOption).
        entry o.name (if o.has_arg then required_argument else no_argument) o.val)
      Options.long_opts

-- `*op[i].name == '\0'`
abbrev starts_nul : List ℕ → Bool
starts_nul [] = true
starts_nul (c ∷ cs) = c == 0

abbrev pub is_end : LongOpt → Bool
is_end o = starts_nul o.name

-- What `count_opts` returns: `too_many` is -1, and `overruns` is a read past the end of the array.
pub data Count : Type 0 where
  counted : ℕ → Count
  too_many : Count
  overruns : Count

-- The loop with `left` rounds to go.
unfoldable pub count_from : ℕ → ℕ → List LongOpt → Count
count_from zero i ops = Count.too_many
count_from (suc left) i [] = Count.overruns
count_from (suc left) i (o ∷ ops) =
    let rest = count_from left (i + 1) ops in if is_end o then Count.counted i else rest

unfoldable pub count_opts : List LongOpt → Count
unfolding count_from
count_opts ops = count_from 256 0 ops

-- `failed` is a null pointer.
pub data Merged : Type 0 where
  merged : List LongOpt → Merged
  failed : Merged
  aborts : Merged
  overruns : Merged

-- `allocates` says whether `malloc` gives memory.
unfoldable pub merge_opts : Bool → List LongOpt → List LongOpt → Merged
unfolding count_opts
merge_opts allocates a b = elim (count_opts a) [
  | Count.too_many ↦ Merged.aborts
  | Count.overruns ↦ Merged.overruns
  | Count.counted n_a ↦ elim (count_opts b) [
    | Count.too_many ↦ Merged.aborts
    | Count.overruns ↦ Merged.overruns
    | Count.counted n_b ↦
        if allocates then Merged.merged (take n_a a ++ take (n_b + 1) b) else Merged.failed
  ]
]

-- What is printed for an option; `none` is a failed assertion.
unfoldable pub print_opt_desc : LongOpt → Option (List ℕ)
print_opt_desc opt =
    if opt.has_arg == no_argument
    then some (codes "  --" ++ opt.name ++ codes "\n")
    else if opt.has_arg == required_argument
    then some (codes "  --" ++ opt.name ++ codes "=ARG\n")
    else if opt.has_arg == optional_argument
    then some (codes "  --" ++ opt.name ++ codes "[=ARG]\n")
    else none

abbrev followed : Option (List ℕ) → Option (List ℕ) → Option (List ℕ)
followed (some a) (some b) = some (a ++ b)
followed a b = none

-- `none` is a failed assertion or a read past the end of the array.
unfoldable pub print_opt_summary : List LongOpt → Option (List ℕ)
unfolding print_opt_desc
print_opt_summary [] = none
print_opt_summary (opt ∷ opts) =
    let rest = print_opt_summary opts in
    if is_end opt then some [] else followed (print_opt_desc opt) rest

unfoldable pub print_help : List ℕ → Option (List ℕ)
unfolding print_opt_summary
print_help program =
    followed
      (followed (some (codes "usage: " ++ program ++ codes " [options]\nClient options:\n"))
        (print_opt_summary long_opts))
      (followed (some (codes "Raft options:\n")) (print_opt_summary raft_getopt_long_opts))
