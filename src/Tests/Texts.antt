-- ===== src/Tests/Texts.antt =====
-- Runs of the string, option and message code.
use libraft.Prelude.{
  ℕ, ◌*◌, ◌-◌, ◌+◌, ◌%◌, ◌≡◌, ◌≢◌, ◌↔◌, ◌⊎◌, refl, true, false, List, [], ◌++◌, Option, none, some,
  min, take, map, replicate,
}
use libraft.Text.{codes, c_str}
use libraft.Errors.{RaftError, err_code, n_raft_errors, init_err_msgs, raft_err_msg}
use libraft.Errors.Messages.{null_messages}
use libraft.Config.{RaftConfig}
use libraft.Config.Size.{parse_size, word64}
use libraft.Config.SizeSuffix.{value_from, factor, parse_size-append}
use libraft.Config.Options.{
  Getopt, opt_code, is_valid, raft_apply_option, ran, returned, rejected, aborted,
}
use libraft.Config.Settings.{Sets, raft_apply_option-Sets}
use libraft.Config.Delivery.{option_errors}
use libraft.Config.Terminated.{TextOption, text_option-c_str}
use libraft.Timings.{zeroed, max_ent}
use libraft.Timings.Keeps.{stamps, record_all, IsSound, record_all_keeps}
use libraft.Tests.Samples.{config, ne_0}

null_messages_example :
    ((raft_err_msg init_err_msgs 15 ≡ none)
      ↔ ((15 ≡ err_code RaftError.resolve) ⊎ (15 ≡ err_code RaftError.in_shutdown)))
    × (raft_err_msg init_err_msgs (n_raft_errors + 15) ≡ some "Unknown error")
    × (raft_err_msg [] 15 ≡ some "Unknown error")
null_messages_example = null_messages 15

parse_size-append_example :
    parse_size (codes "64" ++ codes "Mb")
    ≡ (min (value_from 0 (codes "64")) (word64 - 1) * factor (codes "Mb")) % word64
parse_size-append_example = parse_size-append 54 (codes "4") (codes "Mb") (refl, (refl, tt)) refl

raft_apply_option-Sets_example :
    (d : RaftConfig) × (raft_apply_option (some config) (opt_code Getopt.port) (some (codes "9002"))
      ≡ ran (returned 0 d))
    × Sets config Getopt.port (codes "9002") d
raft_apply_option-Sets_example = raft_apply_option-Sets config Getopt.port (codes "9002")

abbrev no_arg : Option (List ℕ)
no_arg = none

number_refused :
    (raft_apply_option none 720898 no_arg ≡ rejected 1)
    × ((raft_apply_option (some config) 720898 no_arg ≡ ran (returned 1 config))
        ↔ (is_valid 720898 ≡ false))
    × ((raft_apply_option (some config) 720898 no_arg ≡ ran aborted) ↔ (
        (is_valid 720898 ≡ true)
        × (no_arg ≡ none)
        × (720898 ≢ opt_code Getopt.single)
        × (720898 ≢ opt_code Getopt.verbose)))
number_refused = option_errors config 720898 no_arg

abbrev marks : List (List ℕ × ℕ)
marks = replicate 40 (codes "mark", 12)

record_all_keeps_example :
    (stamps (record_all zeroed marks) ≡ take max_ent (map (λ p. p.1) marks))
    × IsSound (record_all zeroed marks)
record_all_keeps_example = record_all_keeps marks

-- The name of a store that just fills its array, in an array that ended in another byte than NUL.
abbrev junk_config : RaftConfig
junk_config = record config { backend_type = replicate 16 9 }

text_option-c_str_example :
    (d : RaftConfig) × (raft_apply_option
        (some junk_config)
        (opt_code Getopt.backend)
        (some (replicate 15 1))
      ≡ ran (returned 0 d))
    × (c_str d.backend_type ≡ none)
text_option-c_str_example =
    text_option-c_str junk_config TextOption.backend (replicate 15 1) 9
      (
        ne_0,
        (
          ne_0,
          (
            ne_0,
            (
              ne_0,
              (
                ne_0,
                (ne_0, (ne_0, (ne_0, (ne_0, (ne_0, (ne_0, (ne_0, (ne_0, (ne_0, (ne_0, tt)))))))))),
              ),
            ),
          ),
        ),
      )
      refl
