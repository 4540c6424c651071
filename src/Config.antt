-- ===== src/Config.antt =====
-- raft_defs.h's RaftConfig, and config.cc.
pub mod Size
pub mod SizeSuffix
pub mod Options
pub mod Settings
pub mod Delivery
pub mod Terminated
use libraft.Prelude.{ℕ, ◌*◌, ◌^◌, ◌-◌, Bool, true, false, List, [], ◌∷◌, set, arith}
use libraft.Text.{codes, strncpy}

-- The character arrays are lists of bytes. `HeartbeatTimeout` and its like are in nanoseconds.
pub record RaftConfig : Type 0 where
  pub shm_path : List ℕ
  pub shm_size : ℕ
  pub backend_type : List ℕ
  pub base_dir : List ℕ
  pub api_workers : ℕ
  pub verbose : Bool
  pub listen_port : ℕ
  pub peers : List ℕ
  pub heartbeat_timeout : ℕ
  pub election_timeout : ℕ
  pub commit_timeout : ℕ
  pub max_append_entries : ℕ
  pub shutdown_on_remove : Bool
  pub disable_bootstrap_after_elect : Bool
  pub trailing_logs : ℕ
  pub snapshot_interval : ℕ
  pub snapshot_threshold : ℕ
  pub enable_single_node : Bool
  pub leader_lease_timeout : ℕ
  pub log_output : List ℕ
  pub retain_snapshots : ℕ

abbrev pub default_shm_path : List ℕ
default_shm_path = codes "/tmp/raft_shm"

abbrev pub default_shm_size : ℕ
default_shm_size = 64 * 1024 * 1024

-- Units in nanoseconds.
abbrev us : ℕ
us = 1000

abbrev ms : ℕ
ms = 1000 * us

abbrev sec : ℕ
sec = 1000 * ms

abbrev minute : ℕ
minute = 60 * sec

-- `junk` is what the variable holds before it is filled; `LogOutput` keeps it.
unfoldable pub default_config : RaftConfig → RaftConfig
default_config junk = record junk {
  shm_path = strncpy junk.shm_path default_shm_path 255;
  shm_size = default_shm_size;
  backend_type = strncpy junk.backend_type (codes "boltdb") 15;
  base_dir = set junk.base_dir 0 0;
  api_workers = 4;
  verbose = false;
  peers = set junk.peers 0 0;
  listen_port = 9001;
  heartbeat_timeout = 1 * sec;
  election_timeout = 1 * sec;
  commit_timeout = 50 * ms;
  max_append_entries = 64;
  shutdown_on_remove = true;
  disable_bootstrap_after_elect = true;
  trailing_logs = 10240;
  snapshot_interval = 2 * minute;
  snapshot_threshold = 8192;
  enable_single_node = false;
  leader_lease_timeout = 500 * ms;
  retain_snapshots = 8;
}
