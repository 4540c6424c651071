-- ===== src/Slot/Waiters.antt =====
-- Who still sleeps when a call is answered.
use libraft.Prelude.{
  ℕ, ◌≡◌, ◌≢◌, refl, sym, ap, ◌∙◌, subst, true, false, ◌⊎◌, inl, inr, update, update_self,
  update_ne, arith, ℕ_discrete, if◌then◌else◌, Option, some,
}
use libraft.Text.{codes}
use libraft.Errors.{RaftError}
use libraft.Timings.{record_at}
use libraft.Slot.{Slot, CallState, is_terminal, is_success, reply_err, reply_val}
use libraft.Slot.Waiting.{
  Pc, System, start, observed, moved, Notifies, one, nobody, Step, waits, sleeps, passes, answers,
  answers_val, spurious, Reach, here, next,
}

-- If a thread sleeps while the call is answered, some other thread is or was in `wait` too.
abbrev Shared : System → Type 0
Shared s =
    is_terminal s.slot.state ≡ true
    → (i : ℕ) → s.pc i ≡ Pc.asleep
    → (j : ℕ) × (j ≢ i) × (s.pc j ≢ Pc.outside)

-- Thread `j` moved on, and only it.
moved-other :
    (pc : ℕ → Pc) (j : ℕ) (p : Pc) (i : ℕ)
    → p ≢ Pc.asleep
    → p ≢ Pc.outside
    → update pc j p i ≡ Pc.asleep
    → (k : ℕ) × (k ≢ i) × (update pc j p k ≢ Pc.outside)
moved-other pc j p i awake gone e = (
  j,
  λ q. awake (sym (update_self pc j p) ∙ ap (update pc j p) q ∙ e),
  λ q. gone (sym (update_self pc j p) ∙ q),
)

Notifies-other :
    (pc pc' : ℕ → Pc) (i : ℕ)
    → Notifies pc pc'
    → pc' i ≡ Pc.asleep
    → (j : ℕ) × (j ≢ i) × (pc' j ≢ Pc.outside)
Notifies-other pc pc' i (one j a m) e =
    let (k, ne, out) =
      moved-other pc j Pc.woken i (λ q. cc) (λ q. cc) (ap (λ f. f i) (sym m) ∙ e) in
    (k, ne, λ q. out (ap (λ f. f k) (sym m) ∙ q))
Notifies-other pc pc' i (nobody none m) e = absurd (none i (ap (λ f. f i) (sym m) ∙ e))

Step-Shared : {s t : System} → Step s t → Shared s → Shared t
Step-Shared {s} (waits j p m) h =
    subst Shared (sym m) λ d i e. moved-other s.pc j Pc.entering i (λ q. cc) (λ q. cc) e
Step-Shared {s} (sleeps j p o m) h = subst Shared (sym m) λ d i e. absurd (ground (arith, o, d))
Step-Shared {s} (passes j now p d m) h =
    subst Shared (sym m) λ d' i e. moved-other s.pc j Pc.returned i (λ q. cc) (λ q. cc) e
Step-Shared {s} {t} (answers err now r n) h = λ d i e. Notifies-other s.pc t.pc i n e
Step-Shared {s} {t} (answers_val v now r n) h = λ d i e. Notifies-other s.pc t.pc i n e
Step-Shared {s} (spurious j p m) h =
    subst Shared (sym m) λ d i e. moved-other s.pc j Pc.woken i (λ q. cc) (λ q. cc) e

-- However threads interleave around a call that is open at first: a thread that is the only one to wait for the call
-- does not sleep once the call is answered.
pub lone_waiter_awake :
    (s : Slot) {t : System} (i : ℕ)
    → is_terminal s.state ≡ false
    → Reach (start s) t
    → ((j : ℕ) → j ≢ i → t.pc j ≡ Pc.outside)
    → is_terminal t.slot.state ≡ true
    → t.pc i ≢ Pc.asleep
lone_waiter_awake s {t} i o r lone d e = let (j, ne, out) = go r d i e in out (lone j ne)
  where
    go : {u : System} → Reach (start s) u → Shared u
    go here = λ d i e. cc
    go (next r' st) = Step-Shared st (go r')

-- Once the call is answered, only a spurious wake-up ends the sleep of a thread.
sleeps_on :
    {t u : System} (i : ℕ)
    → is_terminal t.slot.state ≡ true
    → t.pc i ≡ Pc.asleep
    → Step t u
    → (u.pc i ≡ Pc.asleep) ⊎ (u ≡ moved t i Pc.woken)
unfolding reply_err reply_val
sleeps_on {t} i d e (waits j p m) = inl (
    ap (λ x. x.pc i) m
    ∙ update_ne t.pc Pc.entering (λ q. ground (arith, sym p ∙ ap t.pc q ∙ e))
    ∙ e)
sleeps_on {t} i d e (sleeps j p o m) = absurd (ground (arith, o, d))
sleeps_on {t} i d e (passes j now p d' m) = inl (
    ap (λ x. x.pc i) m
    ∙ update_ne t.pc Pc.returned (λ q. elim p [
      | inl x ↦ ground (arith, sym x ∙ ap t.pc q ∙ e)
      | inr x ↦ ground (arith, sym x ∙ ap t.pc q ∙ e)
    ])
    ∙ e)
sleeps_on {t} i d e (answers err now r n) = absurd (ground (arith, d, r))
sleeps_on {t} i d e (answers_val v now r n) = absurd (ground (arith, d, r))
sleeps_on {t} {u} i d e (spurious j p m) = elim (ℕ_discrete j i) [
  | yes q ↦ inr (subst (λ k. u ≡ moved t k Pc.woken) q m)
  | no ne ↦ inl (ap (λ x. x.pc i) m ∙ update_ne t.pc Pc.woken ne ∙ e)
]

-- Thread `i` waits, and sleeps.
abbrev sleeper : System → ℕ → System
sleeper s i = moved (moved s i Pc.entering) i Pc.asleep

falls_asleep :
    (s : Slot) {t : System} (i : ℕ)
    → is_terminal t.slot.state ≡ false
    → t.pc i ≡ Pc.outside
    → Reach (start s) t
    → Reach (start s) (sleeper t i)
falls_asleep s {t} i o e r =
    next (next r (waits i e refl)) (sleeps i (inl (update_self t.pc i Pc.entering)) o refl)

-- How a call is answered: `reply` with an error, or with a value.
pub data Reply : Type 0 where
  by_error : RaftError → Reply
  by_value : ℕ → Reply

abbrev pub reply_with : Reply → Slot → ℕ → Option Slot
reply_with (Reply.by_error err) s now = reply_err s err now
reply_with (Reply.by_value v) s now = reply_val s v now

abbrev pub answered : Reply → Slot → ℕ → Slot
answered (Reply.by_error err) s now = record s {
  error = err;
  state = if is_success err then CallState.success else CallState.error;
  timings = record_at s.timings (codes "reply sent") now;
}
answered (Reply.by_value v) s now = record s {
  retval = v;
  error = RaftError.success;
  state = CallState.success;
  timings = record_at s.timings (codes "reply sent") now;
}

answered_terminal : (r : Reply) (s : Slot) (now : ℕ) → is_terminal (answered r s now).state ≡ true
answered_terminal (Reply.by_error err) s now = ground arith
answered_terminal (Reply.by_value v) s now = refl

answered_lem :
    (r : Reply) (s : Slot) (now : ℕ)
    → is_terminal s.state ≡ false
    → reply_with r s now ≡ some (answered r s now)
unfolding reply_err reply_val
answered_lem (Reply.by_error err) s now o = ground (arith, o)
answered_lem (Reply.by_value v) s now o = ground (arith, o)

-- The run below after the answer, and at its end.
abbrev one_answered : Reply → Slot → ℕ → System
one_answered r s now = record {
  slot = answered r s now;
  pc = update (sleeper (sleeper (start s) 0) 1).pc 1 Pc.woken;
}

abbrev pub one_back : Reply → Slot → ℕ → ℕ → System
one_back r s now later = record {
  slot = observed (answered r s now) later;
  pc = update (one_answered r s now).pc 1 Pc.returned;
}

answers_by :
    (r : Reply) (s : Slot) (now : ℕ)
    → is_terminal s.state ≡ false
    → Step (sleeper (sleeper (start s) 0) 1) (one_answered r s now)
answers_by (Reply.by_error err) s now o =
    answers err now (answered_lem (Reply.by_error err) s now o) (one 1 refl refl)
answers_by (Reply.by_value v) s now o =
    answers_val v now (answered_lem (Reply.by_value v) s now o) (one 1 refl refl)

-- The answer wakes one thread only. If two threads wait for the same open call, then for every
-- answer, an error or a value, at any time `now`, and whenever the woken thread looks, a state is
-- reached where the slot is as `reply` leaves it but for having been observed by thread 1, which is
-- back from its wait, and thread 0 sleeps; and no step that is left ends its sleep but a spurious
-- wake-up.
pub two_waiters :
    (s : Slot) (r : Reply) (now later : ℕ)
    → is_terminal s.state ≡ false
    → (t : System) × (s' : Slot) × Reach (start s) t
      × (reply_with r s now ≡ some s')
      × (t.slot ≡ observed s' later)
      × (is_terminal t.slot.state ≡ true)
      × (t.pc 0 ≡ Pc.asleep)
      × (t.pc 1 ≡ Pc.returned)
      × ((u : System) → Step t u → (u.pc 0 ≡ Pc.asleep) ⊎ (u ≡ moved t 0 Pc.woken))
two_waiters s r now later o =
    let done = answered_terminal r s now in
    (
      one_back r s now later,
      answered r s now,
      next
          (next {u = one_answered r s now} (falls_asleep s 1 o refl (falls_asleep s 0 o refl here))
            (answers_by r s now o))
          (passes 1 later (inr refl) done refl),
      answered_lem r s now o,
      refl,
      done,
      refl,
      refl,
      λ u st. sleeps_on 0 done refl st,
    )
