-- ===== src/Errors.antt =====
-- raft_defs.h's error and state codes, and the table of messages in raft_c_if.cc.
pub mod Messages
use Prim.Native.String.{String}
use libraft.Prelude.{
  ℕ, Option, none, some, List, get_elem?, set, replicate, length, ltb, if◌then◌else◌,
}

pub data RaftError : Type 0 where
  success leader not_leader leadership_lost shutdown enqueue_timeout known_peer unknown_peer :
      RaftError
  log_not_found pipeline_replication_not_supp transport_shutdown pipeline_shutdown : RaftError
  other invalid_op invalid_address resolve in_shutdown : RaftError

abbrev pub err_code : RaftError → ℕ
err_code RaftError.success = 0
err_code RaftError.leader = 1
err_code RaftError.not_leader = 2
err_code RaftError.leadership_lost = 3
err_code RaftError.shutdown = 4
err_code RaftError.enqueue_timeout = 5
err_code RaftError.known_peer = 6
err_code RaftError.unknown_peer = 7
err_code RaftError.log_not_found = 8
err_code RaftError.pipeline_replication_not_supp = 9
err_code RaftError.transport_shutdown = 10
err_code RaftError.pipeline_shutdown = 11
err_code RaftError.other = 12
err_code RaftError.invalid_op = 13
err_code RaftError.invalid_address = 14
err_code RaftError.resolve = 15
err_code RaftError.in_shutdown = 16

-- The end marker of the enumeration.
abbrev pub n_raft_errors : ℕ
n_raft_errors = 17

-- RaftState travels as the value of a call.
pub data RaftState : Type 0 where
  invalid_state follower candidate leader shutdown : RaftState

abbrev pub state_code : RaftState → ℕ
state_code RaftState.invalid_state = 0
state_code RaftState.follower = 1
state_code RaftState.candidate = 2
state_code RaftState.leader = 3
state_code RaftState.shutdown = 4

pub data RaftLogType : Type 0 where
  command noop add_peer remove_peer barrier : RaftLogType

-- The vector that holds the messages; `none` is a null pointer.
abbrev pub Messages : Type 0
Messages = List (Option String)

put_message : RaftError → String → Messages → Messages
put_message e s msgs = set msgs (err_code e) (some s)

unfoldable pub init_err_msgs : Messages
unfolding put_message
init_err_msgs = put_message RaftError.invalid_address "invalid address" (
    put_message RaftError.invalid_op "invalid operation for call" (
      put_message RaftError.other "undetermined error" (
        put_message RaftError.pipeline_shutdown "append pipeline closed" (
          put_message RaftError.transport_shutdown "transport shutdown" (
            put_message RaftError.pipeline_replication_not_supp "pipeline replication not supported"
              (put_message RaftError.log_not_found "log not found" (
                put_message RaftError.unknown_peer "peer is unknown" (
                  put_message RaftError.known_peer "peer already known" (
                    put_message RaftError.enqueue_timeout "timed out enqueuing operation" (
                      put_message RaftError.shutdown "raft is already shutdown" (
                        put_message RaftError.leadership_lost "leadership lost while committing log"
                          (put_message RaftError.not_leader "node is not the leader" (
                            put_message RaftError.leader "node is the leader" (
                              put_message RaftError.success "success"
                                (replicate n_raft_errors none)))))))))))))))

-- A code that the vector is too short for has a message of its own.
unfoldable pub raft_err_msg : Messages → ℕ → Option String
raft_err_msg msgs err =
    if ltb err (length msgs)
    then elim (get_elem? msgs err) [ none ↦ none | some m ↦ m ]
    else some "Unknown error"
