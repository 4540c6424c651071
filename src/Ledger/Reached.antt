-- ===== src/Ledger/Reached.antt =====
-- Whatever clients, the collector and the threads that serve calls do, in any order.
use libraft.Prelude.{
  ◌≡◌, ℕ, ◌+◌, ◌%◌, ◌^◌, Bool, List, [], length, none, among, Distinct, sym, ap, arith,
}
use libraft.Errors.{RaftError}
use libraft.Call.{Call, Args}
use libraft.World.{World, ret}
use libraft.Request.{send_api_request, send_fsm_request, make_error_request}
use libraft.Future.{dispose, raft_future_wait}
use libraft.Fsm.{RaftFsm, fsm_worker_step}
use libraft.Snapshots.{raft_fsm_snapshot_complete}
use libraft.Orphans.{gc_round}
use libraft.Orphans.Rounds.{gc_round_keeps}
use libraft.Ledger.{in_use, Even, Balances, even, Change-Balances}
use libraft.Ledger.Kept.{Even-refl, raft_future_wait-Even, Even-Keeps}
use libraft.Fsm.Keeps.{fsm_worker_step_keeps, complete_keeps}
use libraft.Ledger.Made.{send_api-Balances, send_fsm-Balances, make_error-Balances}
use libraft.Ledger.Freed.{dispose-Change, try_dispose_orphan-Balances, next_orphan-Balances}

module _ {S : Type 0} (address_of : ℕ → ℕ) (fsm : RaftFsm S) where
  -- One operation. A request gets memory that is not in use; A wait is taken when the
  -- call is ready; until then the steps of others run. `other` is anything else that neither
  -- allocates a call nor frees one, such as an answer of the Raft process.
  pub data Step (w w' : World) : Type 0 where
    sends_api :
        (p r : ℕ) (call : Call) (args : Args)
        → w.slots p ≡ none
        → send_api_request p call args w ≡ ret r w'
        → Step w w'
    sends_fsm :
        (p r : ℕ) (call : Call) (args : Args)
        → w.slots p ≡ none
        → send_fsm_request p call args w ≡ ret r w'
        → Step w w'
    refuses :
        (err : RaftError) (p r : ℕ) (call : Call) (args : Args)
        → w.slots p ≡ none
        → make_error_request err p call args w ≡ ret r w'
        → Step w w'
    disposes : (p : ℕ) → dispose p w ≡ ret tt w' → Step w w'
    collects :
        (backlog rest : List ℕ) (timed_out late : Bool)
        → gc_round backlog timed_out late w ≡ ret rest w'
        → Step w w'
    waits : (f : ℕ) (err : RaftError) → raft_future_wait (λ p w. w) f w ≡ ret err w' → Step w w'
    serves : (st st' : S) → fsm_worker_step address_of fsm st w ≡ ret st' w' → Step w w'
    reports : (p : ℕ) (ok : Bool) → raft_fsm_snapshot_complete p ok w ≡ ret tt w' → Step w w'
    other : Even w w' → Step w w'

  pub data Reach (w : World) : World → Type 0 where
    here : Reach w w
    next : {u v : World} → Reach w u → Step u v → Reach w v

  module _
      (kept : (st : S) (path : List ℕ) (p : ℕ) (w : World)
        → Even w (fsm.begin_snapshot st path p w).1) where
    Step-Balances : (w w' : World) → Step w w' → Balances w → Balances w'
    Step-Balances w w' (sends_api p r call args n e) = send_api-Balances p r call args w w' n e
    Step-Balances w w' (sends_fsm p r call args n e) = send_fsm-Balances p r call args w w' n e
    Step-Balances w w' (refuses err p r call args n e) =
        make_error-Balances err p r call args w w' n e
    Step-Balances w w' (disposes p e) = Change-Balances p w w' (dispose-Change p w w' e)
    Step-Balances w w' (collects backlog rest timed_out late e) =
        gc_round_keeps Balances try_dispose_orphan-Balances next_orphan-Balances backlog rest
          timed_out late w w' e
    Step-Balances w w' (waits f err e) =
        Change-Balances 0 w w'
          (even (raft_future_wait-Even (λ p w. w) (λ p w. Even-refl w) f err w w' e))
    Step-Balances w w' (serves st st' e) =
        Change-Balances 0 w w'
          (even (fsm_worker_step_keeps Even-Keeps address_of fsm kept st st' w w' e))
    Step-Balances w w' (reports p ok e) =
        Change-Balances 0 w w' (even (complete_keeps Even-Keeps p ok w w' e))
    Step-Balances w w' (other e) = Change-Balances 0 w w' (even e)

    Reach-Balances : {w w' : World} → Reach w w' → Balances w → Balances w'
    Reach-Balances here b = b
    Reach-Balances (next {u} {v} r s) b = Step-Balances u v s (Reach-Balances r b)

    -- From a start with no call in use and the counters at zero, whatever requests are sent or
    -- refused, whatever calls are disposed of by their clients or by the collector, whatever calls
    -- are waited for, served by the FSM worker or reported as snapshots, and whatever else happens
    -- in between that neither allocates nor frees, if the client's `begin_snapshot` does neither:
    -- there is a list of the calls in use, each once, and the counter of allocated calls is that
    -- of freed calls and the length of the list, in 64 bits.
    pub Reach-Balanced :
        {w w' : World}
        → ((p : ℕ) → w.slots p ≡ none)
        → w.stats.call_alloc ≡ 0
        → w.stats.call_free ≡ 0
        → Reach w w'
        → (live : List ℕ) × Distinct live
          × ((p : ℕ) → among p live ≡ in_use (w'.slots p))
          × (w'.stats.call_alloc ≡ (w'.stats.call_free + length live) % 2 ^ 64)
    Reach-Balanced n a f r =
        let (live, b) = Reach-Balances r (
          [],
          record {
            distinct = tt;
            listed = λ p. sym (ap in_use (n p));
            counted = ground (arith, a, f);
          },
        ) in
        (live, b.distinct, b.listed, b.counted)
