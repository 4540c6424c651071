-- ===== src/Call.antt =====
-- The calls of raft_api_calls.h and raft_fsm_calls.h: tags, names, argument and result types.
pub mod Names
use Prim.Native.String.{String}
use libraft.Prelude.{
  ℕ, ◌+◌, Bool, true, false, Option, none, some, List, [], ◌∷◌, ◌++◌, get_elem?, set, replicate,
}
use libraft.Errors.{RaftLogType}

-- enum class CallTag : uint8_t
pub data CallTag : Type 0 where
  invalid apply barrier verify_leader get_state last_contact last_index get_leader : CallTag
  add_peer remove_peer set_peers shutdown snapshot stats : CallTag
  fsm_apply fsm_snapshot fsm_restore : CallTag

abbrev pub tag_code : CallTag → ℕ
tag_code CallTag.invalid = 0
tag_code CallTag.apply = 1
tag_code CallTag.barrier = 2
tag_code CallTag.verify_leader = 3
tag_code CallTag.get_state = 4
tag_code CallTag.last_contact = 5
tag_code CallTag.last_index = 6
tag_code CallTag.get_leader = 7
tag_code CallTag.add_peer = 8
tag_code CallTag.remove_peer = 9
tag_code CallTag.set_peers = 10
tag_code CallTag.shutdown = 11
tag_code CallTag.snapshot = 12
tag_code CallTag.stats = 13
tag_code CallTag.fsm_apply = 100
tag_code CallTag.fsm_snapshot = 101
tag_code CallTag.fsm_restore = 102

-- The structs of namespace `api`: a line of the two lists each.
pub data Call : Type 0 where
  apply barrier verify_leader get_state last_contact last_index get_leader : Call
  snapshot stats add_peer remove_peer shutdown : Call
  fsm_apply fsm_snapshot fsm_restore : Call

abbrev pub tag : Call → CallTag
tag Call.apply = CallTag.apply
tag Call.barrier = CallTag.barrier
tag Call.verify_leader = CallTag.verify_leader
tag Call.get_state = CallTag.get_state
tag Call.last_contact = CallTag.last_contact
tag Call.last_index = CallTag.last_index
tag Call.get_leader = CallTag.get_leader
tag Call.snapshot = CallTag.snapshot
tag Call.stats = CallTag.stats
tag Call.add_peer = CallTag.add_peer
tag Call.remove_peer = CallTag.remove_peer
tag Call.shutdown = CallTag.shutdown
tag Call.fsm_apply = CallTag.fsm_apply
tag Call.fsm_snapshot = CallTag.fsm_snapshot
tag Call.fsm_restore = CallTag.fsm_restore

abbrev pub has_ret : Call → Bool
has_ret Call.apply = true
has_ret Call.barrier = true
has_ret Call.verify_leader = false
has_ret Call.get_state = true
has_ret Call.last_contact = true
has_ret Call.last_index = true
has_ret Call.get_leader = true
has_ret Call.snapshot = false
has_ret Call.stats = true
has_ret Call.add_peer = false
has_ret Call.remove_peer = false
has_ret Call.shutdown = false
has_ret Call.fsm_apply = true
has_ret Call.fsm_snapshot = false
has_ret Call.fsm_restore = false

-- The `arg_t` of a call: NoArgs, ApplyArgs, BarrierArgs, LogEntry, Filename and NetworkAddr.
pub data Args : Type 0 where
  no_args : Args
  apply_args : (cmd_buf cmd_len timeout_ns : ℕ) → Args
  barrier_args : (timeout_ns : ℕ) → Args
  log_entry : (index term : ℕ) → RaftLogType → (data_buf data_len : ℕ) → Args
  filename : (path : List ℕ) → Args
  network_addr : (host : List ℕ) (port : ℕ) → Args

abbrev pub calls : List Call
calls =
    Call.apply ∷ Call.barrier ∷ Call.verify_leader ∷ Call.get_state ∷ Call.last_contact
    ∷ Call.last_index ∷ Call.get_leader ∷ Call.snapshot ∷ Call.stats ∷ Call.add_peer
    ∷ Call.remove_peer ∷ Call.shutdown ∷ Call.fsm_apply ∷ Call.fsm_snapshot ∷ Call.fsm_restore ∷ []

-- `#name`
abbrev pub spelling : Call → String
spelling Call.apply = "Apply"
spelling Call.barrier = "Barrier"
spelling Call.verify_leader = "VerifyLeader"
spelling Call.get_state = "GetState"
spelling Call.last_contact = "LastContact"
spelling Call.last_index = "LastIndex"
spelling Call.get_leader = "GetLeader"
spelling Call.snapshot = "Snapshot"
spelling Call.stats = "Stats"
spelling Call.add_peer = "AddPeer"
spelling Call.remove_peer = "RemovePeer"
spelling Call.shutdown = "Shutdown"
spelling Call.fsm_apply = "FSMApply"
spelling Call.fsm_snapshot = "FSMSnapshot"
spelling Call.fsm_restore = "FSMRestore"

set_names : List Call → List String → List String
set_names [] names = names
set_names (c ∷ cs) names = set_names cs (set names (tag_code (tag c)) (spelling c))

unfoldable pub make_tag_names : List String
unfolding set_names
make_tag_names = set_names calls (replicate 256 "*invalid*")

-- `tag_names.at((size_t) tag)`; `none` is the exception of a position past the end.
unfoldable pub tag_name : ℕ → Option String
unfolding make_tag_names
tag_name code = get_elem? make_tag_names code
