-- ===== src/Example/Refused.antt =====
-- The option `--runs` of the example client.
use libraft.Prelude.{
  ◌≡◌, ◌≢◌, refl, sym, ap, ◌∙◌, ℕ, true, List, ◌∷◌, ◌++◌, Option, none, some, arith, Option-cases,
  inl, inr, get_elem?,
}
use libraft.Config.{RaftConfig, default_config}
use libraft.Config.Options.{is_valid}
use libraft.Example.Options.{
  Flag, Settings, initial, Code, Parsed, switch, parse_step, parse_flags, parse_opts,
}
use libraft.Example.Table.{long_opts, print_help, LongOpt}
use libraft.Example.Parsing.{parse_opts_lem, goes_on, parse_flags-append}
use libraft.Example.Program.{Start, with_help, logged, after_parse, main_start}

refused :
    (o : LongOpt) (optarg : Option (List ℕ)) (later : List Flag) (config : RaftConfig)
    (s : Settings)
    → get_elem? long_opts 0 ≡ some o
    → parse_flags (record { c = o.val; optarg = optarg } ∷ later) config s
      ≡ Parsed.returns (Code.unexpected b'r') config s
unfolding parse_flags parse_step is_valid switch
refused o optarg later config s e = let v : o.val ≡ b'r' = ground arith in rw v refl

print_help-ne-none : (program : List ℕ) → print_help program ≢ none
unfolding print_help
print_help-ne-none program e = cc

runs_parsed :
    (flags later : List Flag) (o : LongOpt) (optarg : Option (List ℕ)) (start config : RaftConfig)
    (s : Settings)
    → get_elem? long_opts 0 ≡ some o
    → parse_opts true flags start initial ≡ Parsed.returns Code.fine config s
    → parse_opts true (flags ++ record { c = o.val; optarg = optarg } ∷ later) start initial
      ≡ Parsed.returns (Code.unexpected b'r') config s
runs_parsed flags later o optarg start config s e f =
    parse_opts_lem (flags ++ record { c = o.val; optarg = optarg } ∷ later) start initial
    ∙ parse_flags-append flags (record { c = o.val; optarg = optarg } ∷ later) start initial
    ∙ ap (λ p. goes_on p (parse_flags (record { c = o.val; optarg = optarg } ∷ later)))
        (sym (parse_opts_lem flags start initial) ∙ f)
    ∙ refused o optarg later config s e

-- The first option of the client's table, which is `--runs`, is not one that its parser knows: given
-- after any flags that are taken, and with any argument, it makes `main` call `zlog_error` through
-- a category that is still null, to say that its letter is unexpected; if that call returns, `main`
-- prints the help and returns 2, whatever flags follow.
pub runs_refused :
    (program : List ℕ) (flags later : List Flag) (o : LongOpt) (optarg : Option (List ℕ))
    (junk config : RaftConfig) (s : Settings)
    → get_elem? long_opts 0 ≡ some o
    → parse_opts true flags (default_config junk) initial ≡ Parsed.returns Code.fine config s
    → (text : List ℕ) × (print_help program ≡ some text)
      × (main_start program true (flags ++ record { c = o.val; optarg = optarg } ∷ later) junk
          ≡ Start.logs_null b'r' 2 text)
unfolding main_start
runs_refused program flags later o optarg junk config s e f =
    let p = runs_parsed flags later o optarg (default_config junk) config s e f in
    elim (Option-cases (print_help program)) [
      | inl n ↦ absurd (print_help-ne-none program n)
      | inr (text, h) ↦
          (text, h, ap (after_parse program) p ∙ ap (λ t. logged b'r' (with_help 2 t)) h)
    ]
