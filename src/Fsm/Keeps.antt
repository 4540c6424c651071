-- ===== src/Fsm/Keeps.antt =====
-- What every round of the FSM worker of raft_c_if.cc keeps, because taking a call off the queue and
-- answering in a slot do.
use libraft.Prelude.{
  ◌≡◌, refl, sym, ◌∙◌, ap, subst, arith, ℕ, Bool, true, false, List, Option, none, some, update,
  update_self, Bool-cases, Option-cases, inl, inr, if◌then◌else◌, ◌==◌,
}
use libraft.Call.{CallTag, Args}
use libraft.Errors.{RaftError, RaftLogType}
use libraft.Slot.{Slot, reply_err, reply_val}
use libraft.Queue.Blocking.{Queue}
use libraft.World.{World, Outcome, ◌>>=◌, ◌>>◌, pure, bind-ret, branch, ret, slot_at, assert}
use libraft.Text.{codes}
use libraft.Snapshots.{raft_fsm_snapshot_complete}
use libraft.Fsm.{
  take_call, received, receive, is_pending, note, RaftFsm, store_reply, nonempty, dispatch,
  dispatch_fsm_apply, dispatch_fsm_apply_cmd, dispatch_fsm_snapshot, dispatch_fsm_restore,
  fsm_worker_step, applied, restored,
}
use libraft.Future.{nonzero}

slot_at-same :
    (p : ℕ) (s : Slot) (v u : World) → slot_at p v ≡ ret s u → (v ≡ u) × (v.slots p ≡ some s)
slot_at-same p s v u e = elim (Option-cases (v.slots p)) [
  | inl n ↦ absurd (ground (arith, n))
  | inr (t, h) ↦ (ground (arith, h), ground (arith, h))
]

asserted : (b : Bool) (w v : World) → assert b w ≡ ret tt v → w ≡ v
asserted true w v e = ground arith
asserted false w v e = absurd (ground arith)

reply_err-client :
    (s t : Slot) (err : RaftError) (now : ℕ)
    → reply_err s err now ≡ some t
    → t.client_state ≡ s.client_state
unfolding reply_err
reply_err-client s t err now e = ground arith

reply_val-client :
    (s t : Slot) (v now : ℕ) → reply_val s v now ≡ some t → t.client_state ≡ s.client_state
unfolding reply_val reply_err
reply_val-client s t v now e = ground arith

-- A relation between worlds that is passed on, that a write to a slot which leaves the client's state
-- keeps, and that does not look at the FSM queue.
pub record Keeps (R : World → World → Type 0) : Type 0 where
  pub same : (w : World) → R w w
  pub on : (u v w : World) → R u v → R v w → R u w
  pub writes :
      (p : ℕ) (s t : Slot) (w : World)
      → w.slots p ≡ some s
      → t.client_state ≡ s.client_state
      → R w (record w { slots = update w.slots p (some t) })
  pub takes : (q : Queue (CallTag × ℕ)) (w : World) → R w (record w { fsm_queue = q })

module _ {R : World → World → Type 0} (keeps : Keeps R) where
  store_reply_keeps :
      (p : ℕ) (o : Option Slot) (s : Slot) (w w' : World)
      → w.slots p ≡ some s
      → ((t : Slot) → o ≡ some t → t.client_state ≡ s.client_state)
      → store_reply p o w ≡ ret tt w'
      → R w w'
  store_reply_keeps p none s w w' h c e = absurd (ground arith)
  store_reply_keeps p (some t) s w w' h c e =
      subst (R w) (ground arith) (keeps.writes p s t w h (c t refl))

  take_call_keeps : (r : CallTag × ℕ) (w v : World) → take_call w ≡ ret r v → R w v
  take_call_keeps r w v e = subst (R w) (ground arith) (keeps.takes v.fsm_queue w)

  -- An answer, and then the state of the machine.
  replied :
      {S : Type 0} (p : ℕ) (o : Option Slot) (s : Slot) (st st' : S) (w w' : World)
      → w.slots p ≡ some s
      → ((t : Slot) → o ≡ some t → t.client_state ≡ s.client_state)
      → (store_reply p o >> pure st) w ≡ ret st' w'
      → R w w'
  replied p o s st st' w w' h c e =
      let (_, v, f, g) = bind-ret (store_reply p o) (λ _. pure st) w st' w' e in
      subst (R w) (ground (arith, g)) (store_reply_keeps p o s w v h c f)

  pub complete_keeps :
      (p : ℕ) (ok : Bool) (w w' : World) → raft_fsm_snapshot_complete p ok w ≡ ret tt w' → R w w'
  unfolding raft_fsm_snapshot_complete
  complete_keeps p ok w w' e = elim (Option-cases (w.slots p)) [
    | inl n ↦ absurd (ground (arith, n))
    | inr (s, h) ↦ elim (Bool-cases s.held) [
      | inl locked ↦ absurd (ground (arith, h, locked))
      | inr free ↦
          let err : RaftError = if ok then RaftError.success else RaftError.other in
          store_reply_keeps p (reply_err s err w.now) s w w' h
            (λ t f. reply_err-client s t err w.now f) (ground (arith, h, free))
    ]
  ]

  module _ {S : Type 0} (address_of : ℕ → ℕ) (fsm : RaftFsm S)
      (begins : (st : S) (path : List ℕ) (p : ℕ) (w : World)
        → R w (fsm.begin_snapshot st path p w).1) where
    apply_keeps :
        (p : ℕ) (s t : Slot) (index term : ℕ) (l : RaftLogType) (buf len : ℕ) (st st' : S)
        (w w' : World)
        → w.slots p ≡ some t
        → s.client_state ≡ t.client_state
        → dispatch_fsm_apply address_of fsm p s st index term l buf len w ≡ ret st' w'
        → R w w'
    unfolding dispatch_fsm_apply dispatch_fsm_apply_cmd
    apply_keeps p s t index term RaftLogType.command buf len st st' w w' h c e =
        elim (Bool-cases (nonzero buf)) [
          | inl b ↦
              let (st2, v) = fsm.apply st index term RaftLogType.command (address_of buf) len in
              let s2 = applied address_of fsm w s in
              replied p (reply_val s2 v w.now) t st2 st' w w' h
                (λ x f. reply_val-client s2 x v w.now f ∙ c) (ground (arith, b, e))
          | inr b ↦ absurd (ground (arith, b))
        ]
    apply_keeps p s t index term l buf len st st' w w' h c e =
        subst (R w) (ground arith) (keeps.same w)

    restore_keeps :
        (p : ℕ) (s t : Slot) (path : List ℕ) (st st' : S) (w w' : World)
        → w.slots p ≡ some t
        → s.client_state ≡ t.client_state
        → restored address_of fsm p s (fsm.restore st path) w ≡ ret st' w'
        → R w w'
    restore_keeps p s t path st st' w w' h c e =
        let (st2, rc) = fsm.restore st path in
        let err : RaftError = if rc == 0 then RaftError.success else RaftError.other in
        replied p (reply_err s err w.now) t st2 st' w w' h
          (λ x f. reply_err-client s x err w.now f ∙ c) e

    dispatch_keeps :
        (tag : CallTag) (p : ℕ) (s t : Slot) (args : Args) (st st' : S) (w w' : World)
        → w.slots p ≡ some t
        → s.client_state ≡ t.client_state
        → dispatch address_of fsm tag p s args st w ≡ ret st' w'
        → R w w'
    unfolding dispatch dispatch_fsm_snapshot dispatch_fsm_restore
    dispatch_keeps CallTag.fsm_apply p s t (Args.log_entry index term l buf len) st st' w w' h c e =
        apply_keeps p s t index term l buf len st st' w w' h c e
    dispatch_keeps CallTag.fsm_snapshot p s t (Args.filename path) st st' w w' h c e =
        elim (Bool-cases (nonempty path)) [
          | inl b ↦ subst (R w) (ground (arith, b)) (begins st path p w)
          | inr b ↦ absurd (ground (arith, b))
        ]
    dispatch_keeps CallTag.fsm_restore p s t (Args.filename path) st st' w w' h c e =
        elim (Bool-cases (nonempty path)) [
          | inl b ↦ restore_keeps p s t path st st' w w' h c (ground (arith, b, e))
          | inr b ↦ absurd (ground (arith, b))
        ]
    dispatch_keeps tag p s t args st st' w w' h c e = absurd (ground arith)

    received_keeps :
        (tag : CallTag) (p : ℕ) (s t : Slot) (st st' : S) (w w' : World)
        → w.slots p ≡ some t
        → s.client_state ≡ t.client_state
        → received address_of fsm tag p st s w ≡ ret st' w'
        → R w w'
    received_keeps tag p s t st st' w w' h c e =
        let stored : World = record w { slots = update w.slots p (some s) } in
        let (_, v, f, g) =
          bind-ret (assert (is_pending s.state)) (λ _. dispatch address_of fsm tag p s s.args st)
            stored st' w' e in
        let same : stored ≡ v = asserted (is_pending s.state) stored v f in
        let at_p : v.slots p ≡ some s =
          ap (λ x. x.slots p) (sym same) ∙ update_self w.slots p (some s) in
        keeps.on w v w' (subst (R w) same (keeps.writes p t s w h c))
          (dispatch_keeps tag p s s s.args st st' v w' at_p refl g)

    served_keeps :
        (tag : CallTag) (p : ℕ) (s : Slot) (st st' : S) (w w' : World)
        → w.slots p ≡ some s
        → branch s.held (λ w. Outcome.blocked w) (receive address_of fsm tag p st s) w ≡ ret st' w'
        → R w w'
    served_keeps tag p s st st' w w' h e = elim (Bool-cases s.held) [
      | inl b ↦ absurd (ground (arith, b))
      | inr b ↦
          received_keeps tag p (note w (codes "FSM call received") s) s st st' w w' h refl
            (ground (arith, b))
    ]

    pub fsm_worker_step_keeps :
        (st st' : S) (w w' : World) → fsm_worker_step address_of fsm st w ≡ ret st' w' → R w w'
    unfolding fsm_worker_step
    fsm_worker_step_keeps st st' w w' e =
        let (r, v, f, g) =
          bind-ret take_call
            (λ r. slot_at r.1 >>= λ s.
              branch s.held (λ w. Outcome.blocked w) (receive address_of fsm r.0 r.1 st s))
            w st' w' e in
        let (s, u, h, i) =
          bind-ret (slot_at r.1)
            (λ s. branch s.held (λ w. Outcome.blocked w) (receive address_of fsm r.0 r.1 st s)) v
            st' w' g in
        let (same, at_p) = slot_at-same r.1 s v u h in
        keeps.on w v w' (take_call_keeps r w v f) (
          served_keeps r.0 r.1 s st st' v w' at_p (
            subst
              (λ z.
                branch s.held (λ w. Outcome.blocked w) (receive address_of fsm r.0 r.1 st s) z
                ≡ ret st' w')
              (sym same) i))
