-- ===== src/Config/Settings.antt =====
-- What an option changes, read through one setting for each option.
use libraft.Prelude.{◌==◌, if◌then◌else◌, ℕ, ◌≡◌, refl, Bool, true, List, some, arith}
use libraft.Text.{strncpy}
use libraft.Config.{RaftConfig}
use libraft.Config.Size.{parse_size, port_of}
use libraft.Config.Options.{
  Getopt, shm_path, shm_size, dir, port, single, peers, verbose, backend, opt_code, returned,
  aborted, apply, ran, raft_apply_option,
}

pub data Setting : Type 0 where
  text : List ℕ → Setting
  number : ℕ → Setting
  flag : Bool → Setting

-- The member that an option is for.
abbrev pub setting : Getopt → RaftConfig → Setting
setting shm_path c = text c.shm_path
setting shm_size c = number c.shm_size
setting dir c = text c.base_dir
setting port c = number c.listen_port
setting single c = flag c.enable_single_node
setting peers c = text c.peers
setting verbose c = flag c.verbose
setting backend c = text c.backend_type

-- What the argument makes of a member.
abbrev pub updated : Getopt → List ℕ → Setting → Setting
updated shm_size a old = number (parse_size a)
updated port a old = number (port_of a)
updated single a old = flag true
updated verbose a old = flag true
updated backend a (text old) = text (strncpy old a 15)
updated g a (text old) = text (strncpy old a 255)
updated g a old = old

-- The members that no option is for.
pub record SameOthers (c d : RaftConfig) : Type 0 where
  pub api_workers : d.api_workers ≡ c.api_workers
  pub heartbeat_timeout : d.heartbeat_timeout ≡ c.heartbeat_timeout
  pub election_timeout : d.election_timeout ≡ c.election_timeout
  pub commit_timeout : d.commit_timeout ≡ c.commit_timeout
  pub max_append_entries : d.max_append_entries ≡ c.max_append_entries
  pub shutdown_on_remove : d.shutdown_on_remove ≡ c.shutdown_on_remove
  pub disable_bootstrap_after_elect :
      d.disable_bootstrap_after_elect ≡ c.disable_bootstrap_after_elect
  pub trailing_logs : d.trailing_logs ≡ c.trailing_logs
  pub snapshot_interval : d.snapshot_interval ≡ c.snapshot_interval
  pub snapshot_threshold : d.snapshot_threshold ≡ c.snapshot_threshold
  pub leader_lease_timeout : d.leader_lease_timeout ≡ c.leader_lease_timeout
  pub log_output : d.log_output ≡ c.log_output
  pub retain_snapshots : d.retain_snapshots ≡ c.retain_snapshots

-- The configuration that an option leaves.
pub record Sets (c : RaftConfig) (g : Getopt) (a : List ℕ) (d : RaftConfig) : Type 0 where
  pub settings :
      (h : Getopt)
      → setting h d ≡ (if opt_code h == opt_code g then updated g a (setting g c) else setting h c)
  pub others : SameOthers c d

module _ (c : RaftConfig) (a : List ℕ) where
  after : Getopt → RaftConfig
  unfolding apply
  after g = elim (apply c g (some a)) [ returned n d ↦ d | aborted ↦ c ]

  after-setting :
      (g h : Getopt)
      → setting h (after g)
        ≡ (if opt_code h == opt_code g then updated g a (setting g c) else setting h c)
  unfolding after
  after-setting shm_path h = ground arith
  after-setting g h = ground arith

  after-SameOthers : (g : Getopt) → SameOthers c (after g)
  unfolding after
  after-SameOthers shm_path = ground arith
  after-SameOthers g = ground arith

  returns-after :
      (g : Getopt) → raft_apply_option (some c) (opt_code g) (some a) ≡ ran (returned 0 (after g))
  unfolding raft_apply_option after
  returns-after shm_path = refl
  returns-after g = refl

-- An option with an argument, given by its number, sets its own member from the argument, leaves
-- every other member as it was, and returns 0; no assertion fails.
pub raft_apply_option-Sets :
    (c : RaftConfig) (g : Getopt) (a : List ℕ)
    → (d : RaftConfig) × (raft_apply_option (some c) (opt_code g) (some a) ≡ ran (returned 0 d))
      × Sets c g a d
raft_apply_option-Sets c g a = (
  after c a g,
  returns-after c a g,
  record { settings = after-setting c a g; others = after-SameOthers c a g },
)
