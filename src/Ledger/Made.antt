-- ===== src/Ledger/Made.antt =====
-- What a request allocates.
use libraft.Prelude.{
  ◌≡◌, refl, sym, ap, ◌∙◌, subst, arith, ℕ, Bool, true, false, not, ◌∷◌, none, Option-cases, inl,
  inr,
}
use libraft.World.{World, M, pure, ◌>>=◌, bind-ret, ret}
use libraft.Errors.{RaftError}
use libraft.Call.{Call, CallTag, Args, tag}
use libraft.Slot.{new_slot, is_success}
use libraft.Queue.Blocking.{Queue, Attempt}
use libraft.Queue.Blocking
use libraft.Request.{
  queue_capacity, alloc_request, stamp, after_put, fail_slot, send_request, send_api_request,
  send_fsm_request, make_error_request,
}
use libraft.World.{assert}
use libraft.Ledger.{Even, Balances, even, Change-Balances, alloc-Balanced}

fail_slot-Even :
    (p : ℕ) (err : RaftError) (w w' : World) → fail_slot p err w ≡ ret tt w' → Even w w'
fail_slot-Even p err w w' e = elim (Option-cases (w.slots p)) [
  | inl n ↦ absurd (ground (arith, n))
  | inr (s, h) ↦ record {
    used = λ q. ground (arith, h);
    alloc = ground (arith, h);
    free = ground (arith, h);
  }
]

stamp-Even : (p : ℕ) (w w' : World) → stamp p w ≡ ret tt w' → Even w w'
stamp-Even p w w' e = elim (Option-cases (w.slots p)) [
  | inl n ↦ absurd (ground (arith, n))
  | inr (s, h) ↦ record {
    used = λ q. ground (arith, h);
    alloc = ground (arith, h);
    free = ground (arith, h);
  }
]

after_put-Even :
    (keep : World → Queue (CallTag × ℕ) → World) (throw_ok : Bool) (p : ℕ)
    (a : Attempt (Queue (CallTag × ℕ))) (w w' : World)
    → ((q : Queue (CallTag × ℕ)) → Even w (keep w q))
    → after_put keep throw_ok p a w ≡ ret tt w'
    → Even w w'
after_put-Even keep throw_ok p (Attempt.done q) w w' k e =
    let same : keep w q ≡ w' = ground arith in subst (Even w) same (k q)
after_put-Even keep throw_ok p Attempt.waits w w' k e = absurd (ground arith)
after_put-Even keep true p Attempt.throws_closed w w' k e = absurd (ground arith)
after_put-Even keep false p Attempt.throws_closed w w' k e =
    fail_slot-Even p RaftError.in_shutdown w w' e
after_put-Even keep throw_ok p Attempt.fault w w' k e = absurd (ground arith)

alloc-Balances :
    (p : ℕ) (call : Call) (args : Args) (w w' : World)
    → w.slots p ≡ none
    → alloc_request p call args w ≡ ret tt w'
    → Balances w
    → Balances w'
unfolding alloc_request
alloc-Balances p call args w w' n e (live, b) = (
  p ∷ live,
  alloc-Balanced w w' p (new_slot call args) live n (ground arith) (ground arith) (ground arith) b,
)

send-Balances :
    (queue : World → Queue (CallTag × ℕ)) (keep : World → Queue (CallTag × ℕ) → World)
    (throw_ok : Bool) (p r : ℕ) (call : Call) (args : Args) (w w' : World)
    → ((v : World) (q : Queue (CallTag × ℕ)) → Even v (keep v q))
    → w.slots p ≡ none
    → send_request queue keep throw_ok p call args w ≡ ret r w'
    → Balances w
    → Balances w'
unfolding send_request
send-Balances queue keep throw_ok p r call args w w' k n e b =
    let put : M (Unit {0}) =
      λ w. after_put keep throw_ok p (Blocking.put queue_capacity (queue w) (tag call, p)) w in
    let (_, v, f, g) =
      bind-ret (alloc_request p call args) (λ _. stamp p >>= λ _. put >>= λ _. pure p) w r w' e in
    let (_, u, h, i) = bind-ret (stamp p) (λ _. put >>= λ _. pure p) v r w' g in
    let (_, t, j, l) = bind-ret put (λ _. pure p) u r w' i in
    let same : t ≡ w' = ground arith in
    subst Balances same (
      Change-Balances p u t (even (after_put-Even keep throw_ok p _ u t (k u) j))
        (Change-Balances p v u (even (stamp-Even p v u h)) (alloc-Balances p call args w v n f b)))

pub send_api-Balances :
    (p r : ℕ) (call : Call) (args : Args) (w w' : World)
    → w.slots p ≡ none
    → send_api_request p call args w ≡ ret r w'
    → Balances w
    → Balances w'
unfolding send_api_request
send_api-Balances p r call args w w' =
    send-Balances (λ w. w.api_queue) (λ w q. record w { api_queue = q }) false p r call args w w'
      (λ v q. record { used = λ p. refl; alloc = refl; free = refl })

pub send_fsm-Balances :
    (p r : ℕ) (call : Call) (args : Args) (w w' : World)
    → w.slots p ≡ none
    → send_fsm_request p call args w ≡ ret r w'
    → Balances w
    → Balances w'
unfolding send_fsm_request
send_fsm-Balances p r call args w w' =
    send-Balances (λ w. w.fsm_queue) (λ w q. record w { fsm_queue = q }) true p r call args w w'
      (λ v q. record { used = λ p. refl; alloc = refl; free = refl })

asserted : (b : Bool) (w v : World) → assert b w ≡ ret tt v → w ≡ v
asserted true w v e = ground arith
asserted false w v e = absurd (ground arith)

pub make_error-Balances :
    (err : RaftError) (p r : ℕ) (call : Call) (args : Args) (w w' : World)
    → w.slots p ≡ none
    → make_error_request err p call args w ≡ ret r w'
    → Balances w
    → Balances w'
unfolding make_error_request
make_error-Balances err p r call args w w' n e b =
    let ok = not (is_success err) in
    let rest : M ℕ = alloc_request p call args >>= λ _. fail_slot p err >>= λ _. pure p in
    let (_, v, f, g) = bind-ret (assert ok) (λ _. rest) w r w' e in
    let (_, u, h, i) =
      bind-ret (alloc_request p call args) (λ _. fail_slot p err >>= λ _. pure p) v r w' g in
    let (_, t, j, l) = bind-ret (fail_slot p err) (λ _. pure p) u r w' i in
    let here : w ≡ v = asserted ok w v f in
    let same : t ≡ w' = ground arith in
    subst Balances same (
      Change-Balances p u t (even (fail_slot-Even p err u t j)) (
        alloc-Balances p call args v u (ap (λ x. x.slots p) (sym here) ∙ n) h
          (subst Balances here b)))
