-- ===== src/Ledger/Kept.antt =====
-- The calls in use over a wait of raft_shm.cc and over the answers of the FSM worker of raft_c_if.cc.
use libraft.Prelude.{
  ◌≡◌, refl, ◌∙◌, subst, arith, ℕ, ◌==◌, not, ◌||◌, some, Bool-cases, Option-cases, inl, inr,
}
use libraft.Errors.{RaftError}
use libraft.Slot.{Slot}
use libraft.World.{World, Outcome, M, pure, ◌>>=◌, bind-ret, ret, slot_at, in_shm_bounds}
use libraft.Future.{ready, finish, when_ready, others_run, wait, raft_future_wait}
use libraft.Fsm.Keeps.{Keeps}
use libraft.Ledger.{Even}

pub Even-trans : (u v w : World) → Even u v → Even v w → Even u w
Even-trans u v w a b = record {
  used = λ p. b.used p ∙ a.used p;
  alloc = b.alloc ∙ a.alloc;
  free = b.free ∙ a.free;
}

pub Even-refl : (w : World) → Even w w
Even-refl w = record { used = λ p. refl; alloc = refl; free = refl }

pub Even-Keeps : Keeps Even
Even-Keeps = record {
  same = Even-refl;
  on = Even-trans;
  writes = λ p s t w h c. record { used = λ q. ground (arith, h); alloc = refl; free = refl };
  takes = λ q w. record { used = λ p. refl; alloc = refl; free = refl };
}

finish-Even :
    (p : ℕ) (s : Slot) (w w' : World) → w.slots p ≡ some s → finish p s w ≡ ret tt w' → Even w w'
finish-Even p s w w' h e = record {
  used = λ q. ground (arith, h);
  alloc = ground arith;
  free = ground arith;
}

peeked :
    (f : ℕ) (s : Slot) (u v w : World) (err : RaftError)
    → slot_at f v ≡ ret s u
    → pure s.error u ≡ ret err w
    → v ≡ w
peeked f s u v w err e g = elim (Option-cases (v.slots f)) [
  | inl n ↦ absurd (ground (arith, n))
  | inr (t, h) ↦ ground (arith, h)
]

module _ (env : ℕ → World → World) (kept : (p : ℕ) (w : World) → Even w (env p w)) where
  when_ready-Even :
      (p : ℕ) (otherwise : M (Unit {0})) (w w' : World)
      → ((v : World) → otherwise w ≡ ret tt v → Even w v)
      → when_ready env p otherwise w ≡ ret tt w'
      → Even w w'
  when_ready-Even p otherwise w w' k e = elim (Option-cases (w.slots p)) [
    | inl n ↦ absurd (ground (arith, n))
    | inr (s, h) ↦ elim (Bool-cases (ready s)) [
      | inl r ↦ finish-Even p s w w' h (ground (arith, h, r, e))
      | inr r ↦ k w' (ground (arith, h, r, e))
    ]
  ]

  wait-Even : (p : ℕ) (w w' : World) → wait env p w ≡ ret tt w' → Even w w'
  unfolding wait
  wait-Even p w w' e =
      when_ready-Even p (others_run env p (when_ready env p (λ w. Outcome.blocked w))) w w'
        (λ v f.
          Even-trans w (env p w) v (kept p w) (
            when_ready-Even p (λ w. Outcome.blocked w) (env p w) v (λ u g. absurd (ground arith))
              f))
        e

  pub raft_future_wait-Even :
      (f : ℕ) (err : RaftError) (w w' : World) → raft_future_wait env f w ≡ ret err w' → Even w w'
  unfolding raft_future_wait
  raft_future_wait-Even f err w w' e = elim (Bool-cases (f == 0 || not (in_shm_bounds w f))) [
    | inl b ↦ let same : w ≡ w' = ground (arith, b, e) in subst (Even w) same (Even-refl w)
    | inr b ↦
        let (_, v, i, j) =
          bind-ret (wait env f) (λ _. slot_at f >>= λ s. pure s.error) w err w'
            (ground (arith, b, e)) in
        let (s, u, k, l) = bind-ret (slot_at f) (λ s. pure s.error) v err w' j in
        subst (Even w) (peeked f s u v w' err k l) (wait-Even f w v i)
  ]
