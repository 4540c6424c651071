-- ===== src/Tests/Samples.antt =====
-- A world for the tests: 64 KiB of shared memory from address 4096, with no slot in use.
use libraft.Prelude.{◌≢◌, arith, ℕ, false, true, [], none, some, replicate, update}
use libraft.Call.{Call, CallTag, Args}
use libraft.Slot.{Slot, CallState, ClientState}
use libraft.Errors.{RaftError}
use libraft.Timings.{zeroed}
use libraft.Queue.Blocking.{Queue}
use libraft.World.{World}
use libraft.Config.{RaftConfig}

abbrev pub no_calls : Queue (CallTag × ℕ)
no_calls = record {
  array = replicate 8 (CallTag.invalid, 0);
  head = 0;
  tail = 0;
  count = 0;
  closed = false;
}

abbrev pub world : World
world = record {
  slots = λ _. none;
  api_queue = no_calls;
  fsm_queue = no_calls;
  orphaned_calls = record { items = []; closed = false };
  freed_slots = [];
  freed_buffers = [];
  stale = [];
  stats = record { buffer_alloc = 0; buffer_free = 0; call_alloc = 0; call_free = 0 };
  is_leader = false;
  shutdown_requested = false;
  raft_killed = false;
  msg_timing = true;
  shm_base = 4096;
  shm_size = 65536;
  now = 7;
  junk = zeroed.entries;
}

abbrev pub slot_of : Call → Args → CallState → ClientState → ℕ → RaftError → Slot
slot_of call args state client_state retval error = record {
  call = call;
  args = args;
  held = false;
  state = state;
  client_state = client_state;
  retval = retval;
  error = error;
  timings = zeroed;
}

-- The world with one slot, or two.
abbrev pub holding : ℕ → Slot → World
holding p s = record world { slots = update (λ _. none) p (some s) }

abbrev pub holding_two : ℕ → Slot → ℕ → Slot → World
holding_two p s q t = record world { slots = update (update (λ _. none) p (some s)) q (some t) }

-- A configuration of zeroed memory.
abbrev pub config : RaftConfig
config = record {
  shm_path = replicate 256 0;
  shm_size = 0;
  backend_type = replicate 16 0;
  base_dir = replicate 256 0;
  api_workers = 0;
  verbose = false;
  listen_port = 0;
  peers = replicate 256 0;
  heartbeat_timeout = 0;
  election_timeout = 0;
  commit_timeout = 0;
  max_append_entries = 0;
  shutdown_on_remove = false;
  disable_bootstrap_after_elect = false;
  trailing_logs = 0;
  snapshot_interval = 0;
  snapshot_threshold = 0;
  enable_single_node = false;
  leader_lease_timeout = 0;
  log_output = replicate 256 0;
  retain_snapshots = 0;
}

pub ne_0 : {n : ℕ} → ℕ.suc n ≢ 0
ne_0 e = omega arith
