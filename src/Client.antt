-- ===== src/Client.antt =====
-- The calls of raft_c_if.cc that a client makes. `p` is the address that the allocator picks for the
-- slot; `env` and `address_of` are as in Future.
pub mod Sync
pub mod Sending
pub mod Closed
use libraft.Prelude.{
  ℕ, ◌+◌, ◌%◌, ◌^◌, Bool, true, false, not, ◌&&◌, List, [], ◌∷◌, Option, none, some, ◌==◌,
  if◌then◌else◌,
}
use libraft.Text.{strncpy}
use libraft.Errors.{RaftError, RaftState, state_code}
use libraft.Call.{Call, Args}
use libraft.Slot.{is_success}
use libraft.World.{
  World, Outcome, ret, blocked, raised, aborted, fault, M, pure, ◌>>=◌, ◌>>◌, branch, given, assert,
  in_shm_bounds,
}
use libraft.Request.{send_api_request, make_error_request}
use libraft.Future.{
  Result, dispose, future_get_f, future_eat, raft_future_wait, raft_future_get_fsm_reply, nonzero,
}

-- NetworkAddr, over memory that holds anything.
abbrev pub network_addr : List ℕ → List ℕ → ℕ → Args
network_addr junk host port = Args.network_addr (strncpy junk host 255) port

abbrev set_shutdown_requested : M (Unit {0})
set_shutdown_requested w = ret tt (record w { shutdown_requested = true })

-- The whole of `[cmd, cmd+cmd_len]` must lie in shared memory.
unfoldable pub raft_apply : ℕ → ℕ → ℕ → ℕ → M ℕ
raft_apply p cmd cmd_len timeout_ns w =
    branch (nonzero cmd && in_shm_bounds w cmd && in_shm_bounds w ((cmd + cmd_len) % 2 ^ 64))
      (send_api_request p Call.apply (Args.apply_args cmd cmd_len timeout_ns))
      (make_error_request RaftError.invalid_address p Call.apply
        (Args.apply_args cmd cmd_len timeout_ns))
      w

unfoldable pub raft_barrier : ℕ → ℕ → M ℕ
raft_barrier p timeout_ns = send_api_request p Call.barrier (Args.barrier_args timeout_ns)

unfoldable pub raft_verify_leader : ℕ → M ℕ
raft_verify_leader p = send_api_request p Call.verify_leader Args.no_args

unfoldable pub raft_snapshot : ℕ → M ℕ
raft_snapshot p = send_api_request p Call.snapshot Args.no_args

unfoldable pub raft_add_peer : ℕ → List ℕ → List ℕ → ℕ → M ℕ
raft_add_peer p junk host port = send_api_request p Call.add_peer (network_addr junk host port)

unfoldable pub raft_remove_peer : ℕ → List ℕ → List ℕ → ℕ → M ℕ
raft_remove_peer p junk host port =
    send_api_request p Call.remove_peer (network_addr junk host port)

unfoldable pub raft_stats : ℕ → M ℕ
raft_stats p = send_api_request p Call.stats Args.no_args

unfoldable pub raft_shutdown : ℕ → M ℕ
raft_shutdown p = do set_shutdown_requested; send_api_request p Call.shutdown Args.no_args

unfoldable pub raft_is_leader : M Bool
raft_is_leader w = ret w.is_leader w

module _ (env : ℕ → World → World) where
  -- `res` says whether the pointer is not null; the result is what is written through it.
  unfoldable pub raft_apply_sync : ℕ → ℕ → ℕ → ℕ → Bool → M Result
  raft_apply_sync p cmd cmd_len timeout_ns res =
      branch (not res) (pure (RaftError.invalid_address, none)) (do
        f ← raft_apply p cmd cmd_len timeout_ns
        _ ← raft_future_wait env f
        r ← raft_future_get_fsm_reply env f res
        dispose f
        pure r)

  -- Send, wait, read the value or take `fail`, dispose.
  ask : ℕ → Call → ℕ → M ℕ
  ask p call fail = do
    f ← send_api_request p call Args.no_args
    err ← raft_future_wait env f
    v ← branch (is_success err) (future_get_f f) (pure fail)
    dispose f
    pure v

  -- The value of the enumeration RaftState.
  unfoldable pub raft_state : ℕ → M ℕ
  unfolding ask
  raft_state p = ask p Call.get_state (state_code RaftState.invalid_state)

  unfoldable pub raft_last_contact : ℕ → M ℕ
  unfolding ask
  raft_last_contact p = ask p Call.get_state 0

  -- A failure is logged with `raft_err_msg`.
  unfoldable pub raft_last_index : ℕ → M ℕ
  raft_last_index p = do
    f ← send_api_request p Call.last_index Args.no_args
    r ← future_eat env f true
    given r.1 (λ idx. pure idx) (pure 0)

  unfoldable pub raft_leader : (ℕ → ℕ) → ℕ → Bool → M Result
  raft_leader address_of p res = branch (not res) (pure (RaftError.invalid_address, none)) (do
    f ← send_api_request p Call.get_leader Args.no_args
    r ← future_eat env f true
    given r.1 (λ pval. do assert (nonzero pval); pure (r.0, some (address_of pval)))
        (pure (r.0, none)))
