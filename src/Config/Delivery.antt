-- ===== src/Config/Delivery.antt =====
-- Every option that `getopt_long` delivers is handled, and what happens to any other.
use libraft.Prelude.{
  ℕ, ◌≡◌, ◌≢◌, ◌↔◌, refl, true, false, List, [], ◌∷◌, Option, none, some, take, arith,
  if◌then◌else◌,
}
use libraft.Config.{RaftConfig}
use libraft.Config.Options.{
  single, verbose, opt_code, long_opts, LongOption, is_valid, returned, aborted, apply, rejected,
  ran, raft_apply_option,
}

-- With `required_argument` an argument comes along, with `no_argument` none does.
abbrev pub delivered : LongOption → List ℕ → Option (List ℕ)
delivered e a = if e.has_arg then some a else none

abbrev pub Handled : LongOption → Type 0
Handled e =
    (c : RaftConfig) (a : List ℕ)
    → (d : RaftConfig) × (raft_apply_option (some c) e.val (delivered e a) ≡ ran (returned 0 d))
      × (is_valid e.val ≡ true)

abbrev pub AllHandled : List LongOption → Type 0
AllHandled [] = Unit
AllHandled (e ∷ es) = Handled e × AllHandled es

-- Each of the eight options in the table before its terminator is valid, and applying it with the
-- argument that the table asks for returns 0.
pub long_opts_handled : AllHandled (take 8 long_opts)
unfolding raft_apply_option apply
long_opts_handled = (
  λ c a. (_, refl, refl),
  (
    λ c a. (_, refl, refl),
    (
      λ c a. (_, refl, refl),
      (
        λ c a. (_, refl, refl),
        (
          λ c a. (_, refl, refl),
          (λ c a. (_, refl, refl), (λ c a. (_, refl, refl), (λ c a. (_, refl, refl), tt))),
        ),
      ),
    ),
  ),
)

-- A null configuration returns 1; so does, with the configuration as it was, exactly a number that
-- is no option; and an assertion fails exactly when an option that takes an argument comes without
-- one.
pub option_errors :
    (c : RaftConfig) (k : ℕ) (arg : Option (List ℕ))
    → (raft_apply_option none k arg ≡ rejected 1)
      × ((raft_apply_option (some c) k arg ≡ ran (returned 1 c)) ↔ (is_valid k ≡ false))
      × ((raft_apply_option (some c) k arg ≡ ran aborted)
          ↔ ((is_valid k ≡ true) × (arg ≡ none) × (k ≢ opt_code single) × (k ≢ opt_code verbose)))
unfolding raft_apply_option apply
option_errors c k arg = ground arith
