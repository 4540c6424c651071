-- ===== src/Ledger/Freed.antt =====
-- What giving up a call and collecting it free.
use libraft.Prelude.{
  ◌≡◌, refl, subst, arith, ℕ, Bool, true, not, ◌&&◌, List, [], ◌∷◌, Option, some, Bool-cases,
  Option-cases, inl, inr,
}
use libraft.World.{World, pure, ◌>>=◌, bind-ret, ret}
use libraft.Slot.{Slot, ClientState, is_terminal}
use libraft.Orphans.{try_dispose_orphan, lock, unlock, next_orphan}
use libraft.World.{free_buf, deallocate}
use libraft.Queue.Deque.{put, take}
use libraft.Future.{dispose, orphan_cleanup, track_orphan}
use libraft.Ledger.{Even, Balances, Change, even, frees, Change-Balances}

pub dispose-Change : (p : ℕ) (w w' : World) → dispose p w ≡ ret tt w' → Change p w w'
unfolding dispose orphan_cleanup free_buf deallocate track_orphan put
dispose-Change p w w' e = elim (Option-cases (w.slots p)) [
  | inl n ↦ absurd (ground (arith, n))
  | inr (s, h) ↦ go s h s.client_state refl
]
  where
    go : (s : Slot) → w.slots p ≡ some s → (c : ClientState) → s.client_state ≡ c → Change p w w'
    go s h ClientState.issued c = even (record {
      used = λ q. ground (arith, h, c, e);
      alloc = ground (arith, h, c, e);
      free = ground (arith, h, c, e);
    })
    go s h ClientState.observed c =
        frees s h (ground (arith, h, c, e)) (ground (arith, h, c, e)) (ground (arith, h, c, e))
    go s h ClientState.abandoned c =
        frees s h (ground (arith, h, c, e)) (ground (arith, h, c, e)) (ground (arith, h, c, e))

unlock-Even : (p : ℕ) (w w' : World) → unlock p w ≡ ret tt w' → Even w w'
unlock-Even p w w' e = elim (Option-cases (w.slots p)) [
  | inl n ↦ record {
    used = λ q. ground (arith, n);
    alloc = ground (arith, n);
    free = ground (arith, n);
  }
  | inr (s, h) ↦ record {
    used = λ q. ground (arith, h);
    alloc = ground (arith, h);
    free = ground (arith, h);
  }
]

lock-Even :
    (p : ℕ) (s : Slot) (w w' : World) → w.slots p ≡ some s → lock p s w ≡ ret tt w' → Even w w'
lock-Even p s w w' h e = record {
  used = λ q. ground (arith, h);
  alloc = ground arith;
  free = ground arith;
}

freeing-Balances :
    (p : ℕ) (s : Slot) (b : Bool) (w w' : World)
    → w.slots p ≡ some s
    → (lock p s >>= λ _. dispose p >>= λ _. unlock p >>= λ _. pure true) w ≡ ret b w'
    → Balances w
    → Balances w'
freeing-Balances p s b w w' h e k =
    let (_, v, f, g) =
      bind-ret (lock p s) (λ _. dispose p >>= λ _. unlock p >>= λ _. pure true) w b w' e in
    let (_, u, i, j) = bind-ret (dispose p) (λ _. unlock p >>= λ _. pure true) v b w' g in
    let (_, t, l, m) = bind-ret (unlock p) (λ _. pure true) u b w' j in
    let same : t ≡ w' = ground arith in
    subst Balances same (
      Change-Balances p u t (even (unlock-Even p u t l)) (
        Change-Balances p v u (dispose-Change p v u i)
          (Change-Balances p w v (even (lock-Even p s w v h f)) k)))

pub try_dispose_orphan-Balances :
    (p : ℕ) (b : Bool) (w w' : World) → try_dispose_orphan p w ≡ ret b w' → Balances w → Balances w'
unfolding try_dispose_orphan
try_dispose_orphan-Balances p b w w' e k = elim (Option-cases (w.slots p)) [
  | inl n ↦ absurd (ground (arith, n))
  | inr (s, h) ↦ elim (Bool-cases (not s.held && is_terminal s.state)) [
    | inl t ↦ freeing-Balances p s b w w' h (ground (arith, h, t, e)) k
    | inr t ↦ let same : w ≡ w' = ground (arith, h, t, e) in subst Balances same k
  ]
]

pub next_orphan-Balances :
    (backlog : List ℕ) (b : Bool) (o : Option ℕ) (w w' : World)
    → next_orphan backlog b w ≡ ret o w'
    → Balances w
    → Balances w'
unfolding next_orphan take
next_orphan-Balances [] b o w w' e k =
    Change-Balances 0 w w'
      (even (record { used = λ q. ground arith; alloc = ground arith; free = ground arith })) k
next_orphan-Balances (c ∷ cs) b o w w' e k =
    Change-Balances 0 w w'
      (even (record { used = λ q. ground arith; alloc = ground arith; free = ground arith })) k
