-- ===== src/Errors/Messages.antt =====
-- Which error codes have a message.
use libraft.Prelude.{◌+◌, ℕ, [], ◌≡◌, ◌⊎◌, ◌↔◌, none, some, arith}
use libraft.Errors.{RaftError, err_code, n_raft_errors, init_err_msgs, raft_err_msg}

-- Once the table is filled, the codes of RAFT_E_RESOLVE and RAFT_E_IN_SHUTDOWN, and no others, get
-- a null pointer in place of a message; the codes from the end marker on get "Unknown
-- error"; and before the table is filled every code does.
pub null_messages :
    (c : ℕ)
    → ((raft_err_msg init_err_msgs c ≡ none)
        ↔ ((c ≡ err_code RaftError.resolve) ⊎ (c ≡ err_code RaftError.in_shutdown)))
      × (raft_err_msg init_err_msgs (n_raft_errors + c) ≡ some "Unknown error")
      × (raft_err_msg [] c ≡ some "Unknown error")
unfolding raft_err_msg init_err_msgs
null_messages c = ground arith
