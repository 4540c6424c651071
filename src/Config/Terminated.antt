-- ===== src/Config/Terminated.antt =====
-- Whether a text that an option sets can be read back from its array.
use libraft.Prelude.{
  ℕ, ◌≡◌, refl, List, [], ◌∷◌, none, some, ltb, ◌==◌, length, take, drop, if◌then◌else◌,
}
use libraft.Text.{strncpy, c_str}
use libraft.Text.Copies.{NoNul, strncpy-c_str}
use libraft.Config.{RaftConfig}
use libraft.Config.Options.{Getopt, opt_code, apply, raft_apply_option, ran, returned}

-- The options that copy their argument.
pub data TextOption : Type 0 where
  shm_path dir peers backend : TextOption

abbrev pub option_of : TextOption → Getopt
option_of TextOption.shm_path = Getopt.shm_path
option_of TextOption.dir = Getopt.dir
option_of TextOption.peers = Getopt.peers
option_of TextOption.backend = Getopt.backend

abbrev pub text_in : TextOption → RaftConfig → List ℕ
text_in TextOption.shm_path c = c.shm_path
text_in TextOption.dir c = c.base_dir
text_in TextOption.peers c = c.peers
text_in TextOption.backend c = c.backend_type

-- The bytes of the array before its last one.
abbrev pub room : TextOption → ℕ
room TextOption.backend = 15
room _ = 255

-- A text option whose array ends in the byte `z` before the call: afterwards the array reads back
-- as the argument if that is shorter than the array's other bytes; a longer argument is cut to them
-- if `z` is NUL, and if it is not the array is left without a terminator.
pub text_option-c_str :
    (c : RaftConfig) (o : TextOption) (a : List ℕ) (z : ℕ)
    → NoNul a
    → drop (room o) (text_in o c) ≡ z ∷ []
    → (d : RaftConfig) × (raft_apply_option (some c) (opt_code (option_of o)) (some a)
        ≡ ran (returned 0 d))
      × (c_str (text_in o d) ≡ (
          if ltb (length a) (room o)
          then some a
          else if z == 0
          then some (take (room o) a)
          else none))
unfolding raft_apply_option apply
text_option-c_str c TextOption.shm_path a z h e =
    (record c { shm_path = strncpy c.shm_path a 255 }, refl, strncpy-c_str c.shm_path a 255 z h e)
text_option-c_str c TextOption.dir a z h e =
    (record c { base_dir = strncpy c.base_dir a 255 }, refl, strncpy-c_str c.base_dir a 255 z h e)
text_option-c_str c TextOption.peers a z h e =
    (record c { peers = strncpy c.peers a 255 }, refl, strncpy-c_str c.peers a 255 z h e)
text_option-c_str c TextOption.backend a z h e = (
  record c { backend_type = strncpy c.backend_type a 15 },
  refl,
  strncpy-c_str c.backend_type a 15 z h e,
)
