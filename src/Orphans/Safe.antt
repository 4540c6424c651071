-- ===== src/Orphans/Safe.antt =====
-- Clients, the threads that serve calls and the collector of raft_shm.cc, in any order.
use libraft.Prelude.{
  ℕ, ◌≡◌, ◌≢◌, refl, sym, subst, ◌∙◌, Bool, List, [], ◌++◌, Option, none, some, arith, update, ap,
}
use libraft.Errors.{RaftError}
use libraft.Call.{Call, Args, tag}
use libraft.Slot.{Slot, ClientState}
use libraft.Queue.Blocking.{put}
use libraft.World.{World, ret}
use libraft.Request.{queue_capacity, send_api_request, send_fsm_request, make_error_request}
use libraft.Future.{raft_future_wait, dispose}
use libraft.Snapshots.{raft_fsm_snapshot_complete}
use libraft.Fsm.{RaftFsm, fsm_worker_step}
use libraft.Fsm.Keeps.{Keeps, fsm_worker_step_keeps, complete_keeps}
use libraft.Orphans.{gc_round}
use libraft.Orphans.Scan.{Backlog}
use libraft.Orphans.Tracked.{client_of, Backlog-Stays, Tracked, Collects, gc_round-Collects}
use libraft.Orphans.Clients.{
  Beside-Tracked, sent_by, sent_fsm_by, refused-Beside, waited-Beside, disposed-Tracked,
}

-- No call is made, freed, waited for or given up.
pub record Tame (w w' : World) : Type 0 where
  pub client : (q : ℕ) → client_of (w'.slots q) ≡ client_of (w.slots q)
  pub items : w'.orphaned_calls.items ≡ w.orphaned_calls.items

written-client :
    (slots : ℕ → Option Slot) (p q : ℕ) (s t : Slot)
    → slots p ≡ some s
    → t.client_state ≡ s.client_state
    → client_of (update slots p (some t) q) ≡ client_of (slots q)
written-client slots p q s t h c = ground (arith, h)

Tame-Keeps : Keeps Tame
Tame-Keeps = record {
  same = λ w. record { client = λ q. refl; items = refl };
  on = λ u v w a b. record { client = λ q. b.client q ∙ a.client q; items = b.items ∙ a.items };
  writes = λ p s t w h c. record { client = λ q. written-client w.slots p q s t h c; items = refl };
  takes = λ q w. record { client = λ q. refl; items = refl };
}

Tame-Tracked : (cs : List ℕ) (w w' : World) → Tame w w' → Tracked cs w → Tracked cs w'
Tame-Tracked cs w w' m t =
    subst (λ l. Backlog w'.slots (cs ++ l)) (sym m.items)
      (Backlog-Stays w.slots w'.slots (cs ++ w.orphaned_calls.items) (λ q c. m.client q ∙ c) t)

-- The world, and the collector's backlog.
pub record State : Type 0 where
  pub world : World
  pub backlog : List ℕ

module _ {S : Type 0} (address_of : ℕ → ℕ) (fsm : RaftFsm S) where
  -- One operation. A request gets memory that is not in use. A client neither waits for nor gives up
  -- a call that it has given up; a wait is taken when the call is ready. `other` is anything else
  -- that neither makes, frees, waits for nor gives up a call, such as an answer of the Raft process
  -- or the closing of a queue.
  pub data Step (x y : State) : Type 0 where
    sends_api :
        (p r : ℕ) (call : Call) (args : Args)
        → x.world.slots p ≡ none
        → send_api_request p call args x.world ≡ ret r y.world
        → y.backlog ≡ x.backlog
        → Step x y
    sends_fsm :
        (p r : ℕ) (call : Call) (args : Args)
        → x.world.slots p ≡ none
        → send_fsm_request p call args x.world ≡ ret r y.world
        → y.backlog ≡ x.backlog
        → Step x y
    refuses :
        (err : RaftError) (p r : ℕ) (call : Call) (args : Args)
        → x.world.slots p ≡ none
        → make_error_request err p call args x.world ≡ ret r y.world
        → y.backlog ≡ x.backlog
        → Step x y
    waits :
        (f : ℕ) (err : RaftError)
        → client_of (x.world.slots f) ≢ some ClientState.abandoned
        → raft_future_wait (λ p w. w) f x.world ≡ ret err y.world
        → y.backlog ≡ x.backlog
        → Step x y
    disposes :
        (p : ℕ)
        → p ≢ 0
        → client_of (x.world.slots p) ≢ some ClientState.abandoned
        → dispose p x.world ≡ ret tt y.world
        → y.backlog ≡ x.backlog
        → Step x y
    serves :
        (st st' : S)
        → fsm_worker_step address_of fsm st x.world ≡ ret st' y.world
        → y.backlog ≡ x.backlog
        → Step x y
    reports :
        (p : ℕ) (ok : Bool)
        → raft_fsm_snapshot_complete p ok x.world ≡ ret tt y.world
        → y.backlog ≡ x.backlog
        → Step x y
    collects :
        (timed_out late : Bool)
        → gc_round x.backlog timed_out late x.world ≡ ret y.backlog y.world
        → Step x y
    other : Tame x.world y.world → y.backlog ≡ x.backlog → Step x y

  pub data Reach (x : State) : State → Type 0 where
    here : Reach x x
    next : {y z : State} → Reach x y → Step y z → Reach x z

  abbrev Follows : State → Type 0
  Follows x = Tracked x.backlog x.world

  moved : (x y : State) → y.backlog ≡ x.backlog → Tracked x.backlog y.world → Follows y
  moved x y e t = subst (λ b. Tracked b y.world) (sym e) t

  unused :
      (p : ℕ) (w : World) → w.slots p ≡ none → client_of (w.slots p) ≢ some ClientState.abandoned
  unused p w n e = ground (arith, n)

  module _
      (kept : (st : S) (path : List ℕ) (p : ℕ) (w : World)
        → Tame w (fsm.begin_snapshot st path p w).1) where
    Step-Follows : (x y : State) → Step x y → Follows x → Follows y
    Step-Follows x y (sends_api p r call args n e b) t = moved x y b (
        Beside-Tracked p x.backlog x.world y.world (unused p x.world n)
          (sent_by (put queue_capacity x.world.api_queue (tag call, p)) p r call args x.world
            y.world refl e)
          t)
    Step-Follows x y (sends_fsm p r call args n e b) t = moved x y b (
        Beside-Tracked p x.backlog x.world y.world (unused p x.world n)
          (sent_fsm_by (put queue_capacity x.world.fsm_queue (tag call, p)) p r call args x.world
            y.world refl e)
          t)
    Step-Follows x y (refuses err p r call args n e b) t = moved x y b (
        Beside-Tracked p x.backlog x.world y.world (unused p x.world n)
          (refused-Beside err p r call args x.world y.world e) t)
    Step-Follows x y (waits f err n e b) t =
        moved x y b
          (Beside-Tracked f x.backlog x.world y.world n (waited-Beside f err x.world y.world e) t)
    Step-Follows x y (disposes p nz n e b) t =
        moved x y b (disposed-Tracked p x.backlog x.world y.world nz n e t)
    Step-Follows x y (serves st st' e b) t = moved x y b (
        Tame-Tracked x.backlog x.world y.world
          (fsm_worker_step_keeps Tame-Keeps address_of fsm kept st st' x.world y.world e) t)
    Step-Follows x y (reports p ok e b) t = moved x y b (
        Tame-Tracked x.backlog x.world y.world (complete_keeps Tame-Keeps p ok x.world y.world e) t)
    Step-Follows x y (collects timed_out late e) t =
        subst Collects e (gc_round-Collects x.backlog timed_out late x.world t)
    Step-Follows x y (other m b) t = moved x y b (Tame-Tracked x.backlog x.world y.world m t)

    Reach-Follows : {x y : State} → Reach x y → Follows x → Follows y
    Reach-Follows here t = t
    Reach-Follows (next {y} {z} r s) t = Step-Follows y z s (Reach-Follows r t)

    -- From a start with no orphans, whatever requests clients send or have refused, whatever calls they
    -- wait for and give up, none of them again once it is given up, whatever is served by the FSM
    -- worker, reported as a snapshot or collected, and whatever else happens in between that leaves the
    -- clients' calls alone, as `begin_snapshot` is to do: the calls in the backlog and in the orphan
    -- queue are allocated, given up, and each there once; and the collector's next round, whatever the
    -- clock says, ends, waits for a call or finds the queue closed, with no assertion failing and no
    -- call looked at, locked or disposed of that is not allocated. Where it ends, the same holds of the
    -- calls that are left.
    pub Reach-Collects :
        {x y : State} (timed_out late : Bool)
        → x.backlog ≡ []
        → x.world.orphaned_calls.items ≡ []
        → Reach x y
        → Tracked y.backlog y.world × Collects (gc_round y.backlog timed_out late y.world)
    Reach-Collects {x} {y} timed_out late b i r =
        let start : Follows x =
          subst (Backlog x.world.slots) (sym (ap (λ l. l ++ x.world.orphaned_calls.items) b ∙ i))
            tt in
        let t = Reach-Follows r start in (t, gc_round-Collects y.backlog timed_out late y.world t)
