-- ===== src/Queue/Deque/Order.antt =====
-- The order of the values in the Deque of queue.h, however threads interleave.
use libraft.Prelude.{◌≡◌, refl, ap, ◌∙◌, sym, List, [], ◌∷◌, ◌++◌, append_assoc, arith}
use libraft.Queue.Deque.{Deque, done, put, take, reset, close}
use libraft.Queue.Deque.Threads.{
  System, calls, puts, put_raises, takes, sleeps, take_raises, mutex_times_out, wait_times_out,
  woken_times_out, closes, resets, spurious, Reach, here, next, start,
}

module _ {A : Type 0} where
  -- The values that came in, and those that threads got, since the last reset; the values that the
  -- Deque held at first count as come in.
  abbrev pub entered : {d : Deque A} {s : System A} → Reach (start d) s → List A
  entered {d} here = d.items
  entered (next r (puts i v d pc _ _ _ _)) = entered r ++ v ∷ []
  entered (next r (resets i _ _)) = []
  entered (next r (calls _ _ _ _ _)) = entered r
  entered (next r st) = entered r

  abbrev pub taken : {d : Deque A} {s : System A} → Reach (start d) s → List A
  taken here = []
  taken (next r (takes i v d _ _ _ _)) = taken r ++ v ∷ []
  taken (next r (resets i _ _)) = []
  taken (next r (calls _ _ _ _ _)) = taken r
  taken (next r st) = taken r

  put_items : (d d' : Deque A) (v : A) → put d v ≡ done d' → d'.items ≡ d.items ++ v ∷ []
  unfolding put
  put_items d d' v e = ground arith

  take_items : (d d' : Deque A) (v : A) → take d ≡ done (v, d') → d.items ≡ v ∷ d'.items
  unfolding take
  take_items d d' v e = ground arith

  -- A step that leaves the values alone.
  unmoved :
      (s t : System A) (got came : List A)
      → t.deque.items ≡ s.deque.items
      → came ≡ got ++ s.deque.items
      → came ≡ got ++ t.deque.items
  unmoved s t got came m h = h ∙ ap (λ u. got ++ u) (sym m)

  -- However threads interleave from the idle state: the values that came in since the last reset are
  -- those that threads got, followed by those in the Deque, in one order, so none is lost, doubled
  -- or overtaken.
  pub entered-taken :
      (d : Deque A) {s : System A} (r : Reach (start d) s) → entered r ≡ taken r ++ s.deque.items
  unfolding close reset
  entered-taken d here = refl
  entered-taken d (next {t} r (puts i v d' pc e p n m)) =
      ap (λ u. u ++ v ∷ []) (entered-taken d r)
      ∙ append_assoc (taken r) t.deque.items (v ∷ [])
      ∙ ap (λ u. taken r ++ u) (sym (put_items t.deque d' v p))
      ∙ ap (λ u. taken r ++ u.deque.items) (sym m)
  entered-taken d (next {t} r (takes i v d' e l p m)) =
      entered-taken d r
      ∙ ap (λ u. taken r ++ u) (take_items t.deque d' v p)
      ∙ sym (append_assoc (taken r) (v ∷ []) d'.items)
      ∙ ap (λ u. (taken r ++ v ∷ []) ++ u.deque.items) (sym m)
  entered-taken d (next r (resets i e m)) = ap (λ u. u.deque.items) (sym m)
  entered-taken d {s = u} (next {t} r (calls i p a c m)) =
      unmoved t u (taken r) (entered r) (ap (λ u. u.deque.items) m) (entered-taken d r)
  entered-taken d {s = u} (next {t} r (put_raises i v _ _ m)) =
      unmoved t u (taken r) (entered r) (ap (λ u. u.deque.items) m) (entered-taken d r)
  entered-taken d {s = u} (next {t} r (sleeps i _ _ _ m)) =
      unmoved t u (taken r) (entered r) (ap (λ u. u.deque.items) m) (entered-taken d r)
  entered-taken d {s = u} (next {t} r (take_raises i _ _ _ m)) =
      unmoved t u (taken r) (entered r) (ap (λ u. u.deque.items) m) (entered-taken d r)
  entered-taken d {s = u} (next {t} r (mutex_times_out i _ m)) =
      unmoved t u (taken r) (entered r) (ap (λ u. u.deque.items) m) (entered-taken d r)
  entered-taken d {s = u} (next {t} r (wait_times_out i _ m)) =
      unmoved t u (taken r) (entered r) (ap (λ u. u.deque.items) m) (entered-taken d r)
  entered-taken d {s = u} (next {t} r (woken_times_out i _ m)) =
      unmoved t u (taken r) (entered r) (ap (λ u. u.deque.items) m) (entered-taken d r)
  entered-taken d {s = u} (next {t} r (closes i _ m)) =
      unmoved t u (taken r) (entered r) (ap (λ u. u.deque.items) m) (entered-taken d r)
  entered-taken d {s = u} (next {t} r (spurious i m)) =
      unmoved t u (taken r) (entered r) (ap (λ u. u.deque.items) m) (entered-taken d r)
