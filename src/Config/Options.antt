-- ===== src/Config/Options.antt =====
-- The command line options of config.cc, and `raft_apply_option` of raft_c_if.cc.
use libraft.Prelude.{
  ℕ, ◌+◌, Bool, true, false, ◌&&◌, List, [], ◌∷◌, Option, none, some, ltb, leb, ◌==◌, if◌then◌else◌,
}
use libraft.Text.{codes, strncpy}
use libraft.Config.{RaftConfig}
use libraft.Config.Size.{parse_size, port_of}

-- enum arg::Getopt
pub data Getopt : Type 0 where
  shm_path shm_size dir port single peers verbose backend : Getopt

abbrev pub first_opt : ℕ
first_opt = 0xb0000

abbrev pub end_opts : ℕ
end_opts = first_opt + 8

abbrev pub opt_code : Getopt → ℕ
opt_code shm_path = first_opt
opt_code shm_size = first_opt + 1
opt_code dir = first_opt + 2
opt_code port = first_opt + 3
opt_code single = first_opt + 4
opt_code peers = first_opt + 5
opt_code verbose = first_opt + 6
opt_code backend = first_opt + 7

-- One entry of LONG_OPTS: the name, whether it takes an argument, the value.
pub record LongOption : Type 0 where
  pub name : List ℕ
  pub has_arg : Bool
  pub val : ℕ

abbrev entry : List ℕ → Bool → Getopt → LongOption
entry n a g = record { name = n; has_arg = a; val = opt_code g }

abbrev pub long_opts : List LongOption
long_opts =
    entry (codes "shm-path") true shm_path
    ∷ entry (codes "shm-size") true shm_size
    ∷ entry (codes "backend-type") true backend
    ∷ entry (codes "dir") true dir
    ∷ entry (codes "port") true port
    ∷ entry (codes "single") false single
    ∷ entry (codes "peers") true peers
    ∷ entry (codes "verbose") false verbose
    ∷ record { name = []; has_arg = false; val = 0 }
    ∷ []

-- An option is an `int`; a negative one is not valid, as a small one is not.
unfoldable pub is_valid : ℕ → Bool
is_valid option = leb first_opt option && ltb option end_opts

-- What a call returns, and the configuration that it leaves; `aborted` is a failed assertion.
pub data Applied : Type 0 where
  returned : ℕ → RaftConfig → Applied
  aborted : Applied

with_arg : Option (List ℕ) → (List ℕ → RaftConfig) → Applied
with_arg none f = aborted
with_arg (some arg) f = returned 0 (f arg)

unfoldable pub apply : RaftConfig → Getopt → Option (List ℕ) → Applied
unfolding with_arg
apply cfg shm_path arg = with_arg arg λ a. record cfg { shm_path = strncpy cfg.shm_path a 255 }
apply cfg shm_size arg = with_arg arg λ a. record cfg { shm_size = parse_size a }
apply cfg backend arg =
    with_arg arg λ a. record cfg { backend_type = strncpy cfg.backend_type a 15 }
apply cfg dir arg = with_arg arg λ a. record cfg { base_dir = strncpy cfg.base_dir a 255 }
apply cfg port arg = with_arg arg λ a. record cfg { listen_port = port_of a }
apply cfg single arg = returned 0 (record cfg { enable_single_node = true })
apply cfg peers arg = with_arg arg λ a. record cfg { peers = strncpy cfg.peers a 255 }
apply cfg verbose arg = returned 0 (record cfg { verbose = true })

-- `(arg::Getopt) option`, in the order of the enumeration. `none` is a number that is no option: the
-- switch of `apply` asserts.
unfoldable pub getopt_of : ℕ → Option Getopt
getopt_of option =
    if option == first_opt
    then some shm_path
    else if option == first_opt + 1
    then some shm_size
    else if option == first_opt + 2
    then some dir
    else if option == first_opt + 3
    then some port
    else if option == first_opt + 4
    then some single
    else if option == first_opt + 5
    then some peers
    else if option == first_opt + 6
    then some verbose
    else if option == first_opt + 7
    then some backend
    else none

-- `none` is a null configuration, for which there is nothing to leave.
pub data Outcome : Type 0 where
  rejected : ℕ → Outcome
  ran : Applied → Outcome

unfoldable pub raft_apply_option : Option RaftConfig → ℕ → Option (List ℕ) → Outcome
unfolding is_valid getopt_of
raft_apply_option none option arg = rejected 1
raft_apply_option (some cfg) option arg =
    if is_valid option
    then elim (getopt_of option) [ none ↦ ran aborted | some g ↦ ran (apply cfg g arg) ]
    else ran (returned 1 cfg)
