-- ===== src/Orphans/Clients.antt =====
-- What the requests, waits and disposals of clients do to the orphans of raft_shm.cc.
use libraft.Prelude.{
  ℕ, ◌≡◌, ◌≢◌, refl, sym, ap, subst, ◌∙◌, false, not, ◌||◌, List, [], ◌∷◌, ◌++◌, some, arith,
  update_self, among, append_assoc, Bool-cases, Option-cases, inl, inr, ◌==◌,
}
use libraft.Errors.{RaftError}
use libraft.Call.{Call, CallTag, Args, tag}
use libraft.Slot.{Slot, ClientState, new_slot, is_success}
use libraft.Queue.Blocking.{Queue, Attempt, put}
use libraft.World.{World, ret}
use libraft.Request.{queue_capacity, send_api_request, send_fsm_request, make_error_request}
use libraft.World.{in_shm_bounds, deallocate}
use libraft.Queue.Deque.{put as put_orphan}
use libraft.Future.{ready, raft_future_wait, dispose}
use libraft.Future.Disposal.{orphan}
use libraft.Orphans.Buffers.{Slots}
use libraft.Orphans.Scan.{Backlog}
use libraft.Orphans.Tracked.{client_of, Stays, Backlog-Stays, Backlog-client, Backlog-snoc, Tracked}

-- Only the slot at `p` may differ, and the orphan queue holds what it held.
pub record Beside (p : ℕ) (w w' : World) : Type 0 where
  pub others : (q : ℕ) → p ≢ q → w'.slots q ≡ w.slots q
  pub items : w'.orphaned_calls.items ≡ w.orphaned_calls.items

pub Beside-Tracked :
    (p : ℕ) (cs : List ℕ) (w w' : World)
    → client_of (w.slots p) ≢ some ClientState.abandoned
    → Beside p w w'
    → Tracked cs w
    → Tracked cs w'
Beside-Tracked p cs w w' n s t =
    subst (λ l. Backlog w'.slots (cs ++ l)) (sym s.items)
      (Backlog-Stays w.slots w'.slots (cs ++ w.orphaned_calls.items)
        (λ q c. ap client_of (s.others q (λ e. n (ap (λ r. client_of (w.slots r)) e ∙ c))) ∙ c) t)

pub sent_by :
    (a : Attempt (Queue (CallTag × ℕ))) (p r : ℕ) (call : Call) (args : Args) (w w' : World)
    → put queue_capacity w.api_queue (tag call, p) ≡ a
    → send_api_request p call args w ≡ ret r w'
    → Beside p w w'
unfolding send_api_request new_slot
sent_by (Attempt.done q) p r call args w w' f e = record {
  others = λ q n. ground (arith, n);
  items = ground arith;
}
sent_by Attempt.waits p r call args w w' f e = absurd (ground arith)
sent_by Attempt.throws_closed p r call args w w' f e = record {
  others = λ q n. ground (arith, n);
  items = ground arith;
}
sent_by Attempt.fault p r call args w w' f e = absurd (ground arith)

pub sent_fsm_by :
    (a : Attempt (Queue (CallTag × ℕ))) (p r : ℕ) (call : Call) (args : Args) (w w' : World)
    → put queue_capacity w.fsm_queue (tag call, p) ≡ a
    → send_fsm_request p call args w ≡ ret r w'
    → Beside p w w'
unfolding send_fsm_request new_slot
sent_fsm_by (Attempt.done q) p r call args w w' f e = record {
  others = λ q n. ground (arith, n);
  items = ground arith;
}
sent_fsm_by Attempt.waits p r call args w w' f e = absurd (ground arith)
sent_fsm_by Attempt.throws_closed p r call args w w' f e = absurd (ground arith)
sent_fsm_by Attempt.fault p r call args w w' f e = absurd (ground arith)

pub refused-Beside :
    (err : RaftError) (p r : ℕ) (call : Call) (args : Args) (w w' : World)
    → make_error_request err p call args w ≡ ret r w'
    → Beside p w w'
unfolding make_error_request new_slot
refused-Beside err p r call args w w' e = elim (Bool-cases (is_success err)) [
  | inl b ↦ absurd (ground (arith, b))
  | inr b ↦ record { others = λ q n. ground (arith, n, b); items = ground (arith, b) }
]

-- A wait for a call that is ready, or for none.
pub waited-Beside :
    (f : ℕ) (err : RaftError) (w w' : World)
    → raft_future_wait (λ p w. w) f w ≡ ret err w'
    → Beside f w w'
unfolding raft_future_wait
waited-Beside f err w w' e = elim (Bool-cases (f == 0 || not (in_shm_bounds w f))) [
  | inl b ↦ record { others = λ q n. ground (arith, n, b, e); items = ground (arith, b, e) }
  | inr b ↦ elim (Option-cases (w.slots f)) [
    | inl h ↦ absurd (ground (arith, b, h, e))
    | inr (s, h) ↦ elim (Bool-cases (ready s)) [
      | inl r ↦ record {
        others = λ q n. ground (arith, n, b, h, r, e);
        items = ground (arith, b, h, r, e);
      }
      | inr r ↦ absurd (ground (arith, b, h, r, e))
    ]
  ]
]

-- A call that is not given up is not in the list.
not_tracked :
    (p : ℕ) (xs : List ℕ) (slots : Slots)
    → Backlog slots xs
    → client_of (slots p) ≢ some ClientState.abandoned
    → among p xs ≡ false
not_tracked p xs slots b n = elim (Bool-cases (among p xs)) [
  | inl m ↦ absurd (n (Backlog-client slots xs p b m))
  | inr off ↦ off
]

issued-Tracked :
    (p : ℕ) (cs : List ℕ) (s : Slot) (w w' : World)
    → p ≢ 0
    → w.slots p ≡ some s
    → s.client_state ≡ ClientState.issued
    → dispose p w ≡ ret tt w'
    → Tracked cs w
    → Tracked cs w'
unfolding dispose put_orphan
issued-Tracked p cs s w w' nz h c e t = elim (Bool-cases w.orphaned_calls.closed) [
  | inl shut ↦ absurd (ground (arith, h, c, shut, e))
  | inr opened ↦
      let items : List ℕ = w.orphaned_calls.items in
      let w1 = orphan w p s in
      let off : among p (cs ++ items) ≡ false =
        not_tracked p (cs ++ items) w.slots t (λ k. ground (arith, h, c, k)) in
      let same : w1 ≡ w' = ground (arith, h, c, opened, e) in
      let stays : Stays w.slots w1.slots = λ q k. ground (arith, k) in
      let kept : Backlog w1.slots (cs ++ items) =
        Backlog-Stays w.slots w1.slots (cs ++ items) stays t in
      let more : Backlog w1.slots ((cs ++ items) ++ p ∷ []) =
        Backlog-snoc w1.slots (cs ++ items) p (record s { client_state = ClientState.abandoned })
          kept off
          (update_self w.slots p (some (record s { client_state = ClientState.abandoned }))) refl
          nz in
      subst (Tracked cs) same (subst (Backlog w1.slots) (append_assoc cs items (p ∷ [])) more)
]

observed-Beside :
    (p : ℕ) (s : Slot) (w w' : World)
    → w.slots p ≡ some s
    → s.client_state ≡ ClientState.observed
    → dispose p w ≡ ret tt w'
    → Beside p w w'
unfolding dispose deallocate
observed-Beside p s w w' h c e = record {
  others = λ q n. ground (arith, n, h, c, e);
  items = ground (arith, h, c, e);
}

pub disposed-Tracked :
    (p : ℕ) (cs : List ℕ) (w w' : World)
    → p ≢ 0
    → client_of (w.slots p) ≢ some ClientState.abandoned
    → dispose p w ≡ ret tt w'
    → Tracked cs w
    → Tracked cs w'
unfolding dispose
disposed-Tracked p cs w w' nz n e t = elim (Option-cases (w.slots p)) [
  | inl h ↦ absurd (ground (arith, h))
  | inr (s, h) ↦ by_state s h s.client_state refl
]
  where
    by_state :
        (s : Slot) → w.slots p ≡ some s → (c : ClientState) → s.client_state ≡ c → Tracked cs w'
    by_state s h ClientState.issued c = issued-Tracked p cs s w w' nz h c e t
    by_state s h ClientState.observed c =
        Beside-Tracked p cs w w' n (observed-Beside p s w w' h c e) t
    by_state s h ClientState.abandoned c = absurd (n (ground (arith, h, c)))
