-- ===== src/Queue/Blocking/History.antt =====
-- Under every interleaving the queue stays well formed and hands the values on in their order.
use libraft.Prelude.{
  ℕ, ◌<◌, ◌≡◌, ◌≢◌, refl, ap, sym, true, List, [], ◌∷◌, ◌++◌, append_assoc, arith, length,
}
use libraft.Queue.Blocking.{
  Queue, done, fault, word, put_locked, put_resumed, take_locked, take_resumed, close,
}
use libraft.Queue.Blocking.Represents.{Represents, store-Represents, fetch-Represents}
use libraft.Queue.Blocking.Refine.{zeroed, zeroed-Represents, Represents-closed}
use libraft.Queue.Blocking.Threads.{
  System, Pc, moved, Stores, Fetches, Step, call_put, call_take, call_close, put_check, put_refused,
  put_waits, put_stores, put_waits_again, put_stores_late, put_raises, take_check, take_refused,
  take_waits, take_fetches, take_waits_again, take_fetches_late, take_raises, closes, spurious,
  Reach, here, next, start,
}

module _ {A : Type 0} where
  -- The values in the queue are those that entered and have not left, in that order.
  pub record InOrder (limit : ℕ) (s : System A) : Type 0 where
    pub items : List A
    pub well_formed : Represents limit s.queue items
    pub order : s.entered ≡ s.left ++ items

  put_locked-Represents :
      (limit : ℕ) (q q' : Queue A) (v : A) (xs : List A)
      → Represents limit q xs
      → put_locked limit q v ≡ done q'
      → Represents limit q' (xs ++ v ∷ [])
  unfolding put_locked
  put_locked-Represents limit q q' v xs r e = ground (arith, store-Represents limit q v xs r)

  -- What a fetch leaves.
  abbrev Fetched : ℕ → List A → A → Queue A → Type 0
  Fetched limit xs v q' = (ys : List A) × (xs ≡ v ∷ ys) × Represents limit q' ys

  take_locked-Represents :
      (limit : ℕ) (q q' : Queue A) (v : A) (xs : List A)
      → Represents limit q xs
      → take_locked limit q ≡ done (v, q')
      → Fetched limit xs v q'
  unfolding take_locked
  take_locked-Represents limit q q' v [] r e = absurd (ground arith)
  take_locked-Represents limit q q' v (x ∷ xs) r e = (
    xs,
    ground (arith, fetch-Represents limit q x xs r),
    ground (arith, fetch-Represents limit q x xs r),
  )

  put_resumed_done :
      (limit : ℕ) (q : Queue A) {q' : Queue A} (v : A)
      → put_resumed limit q v ≡ done q'
      → put_locked limit q v ≡ done q'
  unfolding put_resumed
  put_resumed_done limit q v e = ground arith

  take_resumed_done :
      (limit : ℕ) (q : Queue A) {r : A × Queue A}
      → take_resumed limit q ≡ done r
      → take_locked limit q ≡ done r
  unfolding take_resumed
  take_resumed_done limit q e = ground arith

  no_fault :
      (limit : ℕ) (q : Queue A) (xs : List A) → Represents limit q xs → take_locked limit q ≢ fault
  unfolding take_locked
  no_fault limit q [] r = ground arith
  no_fault limit q (x ∷ xs) r = ground (arith, fetch-Represents limit q x xs r)

  head_in_bounds : (limit : ℕ) (q : Queue A) (xs : List A) → Represents limit q xs → q.head < limit
  head_in_bounds limit q xs r = ground arith

  same-InOrder :
      {limit : ℕ} {s t : System A}
      → InOrder limit s
      → t.queue ≡ s.queue
      → t.entered ≡ s.entered
      → t.left ≡ s.left
      → InOrder limit t
  same-InOrder v q e l = record {
    items = v.items;
    well_formed = rw q v.well_formed;
    order = rw (e, l) v.order;
  }

  moved-InOrder :
      {limit : ℕ} (s : System A) {t : System A} (i : ℕ) (p : Pc A)
      → InOrder limit s
      → t ≡ moved s i p
      → InOrder limit t
  moved-InOrder s i p v e =
      same-InOrder v (ap (λ u. u.queue) e) (ap (λ u. u.entered) e) (ap (λ u. u.left) e)

  Stores-InOrder :
      {limit i : ℕ} {s t : System A} {v : A}
      → InOrder limit s
      → Stores s t i v (put_locked limit s.queue v)
      → InOrder limit t
  Stores-InOrder {limit} {i} {s} {t} {v} o st = record {
    items = o.items ++ v ∷ [];
    well_formed = put_locked-Represents limit s.queue t.queue v o.items o.well_formed st.stored;
    order = rw (st.entered, st.left, o.order) (append_assoc s.left o.items (v ∷ []));
  }

  Fetches-InOrder :
      {limit i : ℕ} {s t : System A} {v : A}
      → InOrder limit s
      → Fetches s t i v (take_locked limit s.queue)
      → InOrder limit t
  Fetches-InOrder {limit} {i} {s} {t} {v} o f =
      let (ys, e, r) =
        take_locked-Represents limit s.queue t.queue v o.items o.well_formed f.fetched in
      record {
        items = ys;
        well_formed = r;
        order = rw (f.entered, f.left, o.order, e) (sym (append_assoc s.left (v ∷ []) ys));
      }

  pub late_store :
      (limit : ℕ) {i : ℕ} {s t : System A} {v : A}
      → Stores s t i v (put_resumed limit s.queue v)
      → Stores s t i v (put_locked limit s.queue v)
  late_store limit {i} {s} {t} {v} st = record {
    stored = put_resumed_done limit s.queue v st.stored;
    notified = st.notified;
    entered = st.entered;
    left = st.left;
  }

  pub late_fetch :
      (limit : ℕ) {i : ℕ} {s t : System A} {v : A}
      → Fetches s t i v (take_resumed limit s.queue)
      → Fetches s t i v (take_locked limit s.queue)
  late_fetch limit {i} {s} {t} {v} f = record {
    fetched = take_resumed_done limit s.queue f.fetched;
    notified = f.notified;
    entered = f.entered;
    left = f.left;
  }

  pub Step-InOrder :
      {limit : ℕ} {s t : System A} → InOrder limit s → Step limit s t → InOrder limit t
  unfolding close
  Step-InOrder {s} v (call_put i a _ e) = moved-InOrder s i _ v e
  Step-InOrder {s} v (call_take i _ e) = moved-InOrder s i _ v e
  Step-InOrder {s} v (call_close i _ e) = moved-InOrder s i _ v e
  Step-InOrder {s} v (put_check i a _ _ e) = moved-InOrder s i _ v e
  Step-InOrder {s} v (put_refused i a _ _ e) = moved-InOrder s i _ v e
  Step-InOrder {s} v (put_waits i a _ _ e) = moved-InOrder s i _ v e
  Step-InOrder v (put_stores i a _ st) = Stores-InOrder v st
  Step-InOrder {s} v (put_waits_again i a _ _ e) = moved-InOrder s i _ v e
  Step-InOrder v (put_stores_late i a _ st) = Stores-InOrder v (late_store _ st)
  Step-InOrder {s} v (put_raises i a _ _ e) = moved-InOrder s i _ v e
  Step-InOrder {s} v (take_check i _ _ e) = moved-InOrder s i _ v e
  Step-InOrder {s} v (take_refused i _ _ e) = moved-InOrder s i _ v e
  Step-InOrder {s} v (take_waits i _ _ e) = moved-InOrder s i _ v e
  Step-InOrder v (take_fetches i a _ f) = Fetches-InOrder v f
  Step-InOrder {s} v (take_waits_again i _ _ e) = moved-InOrder s i _ v e
  Step-InOrder v (take_fetches_late i a _ f) = Fetches-InOrder v (late_fetch _ f)
  Step-InOrder {s} v (take_raises i _ _ e) = moved-InOrder s i _ v e
  Step-InOrder {limit} {s} v (closes i _ e) = record {
    items = v.items;
    well_formed =
        rw (ap (λ u. u.queue) e) (Represents-closed limit s.queue v.items true v.well_formed);
    order = rw (ap (λ u. u.entered) e, ap (λ u. u.left) e) v.order;
  }
  Step-InOrder {s} v (spurious i e) = moved-InOrder s i _ v e

  pub Reach-InOrder :
      {limit : ℕ} {s t : System A} → InOrder limit s → Reach limit s t → InOrder limit t
  Reach-InOrder v here = v
  Reach-InOrder v (next r st) = Step-InOrder (Reach-InOrder v r) st

  pub start-InOrder :
      (array : List A)
      → 0 < length array
      → length array < word
      → InOrder (length array) (start (zeroed array))
  start-InOrder array positive small = record {
    items = [];
    well_formed = zeroed-Represents array positive small;
    order = refl;
  }

  -- However the threads interleave, from zeroed memory with a capacity that is positive and fits 32
  -- bits: the values that entered are those that left followed by those in the queue, in one order,
  -- so none is lost, doubled or overtaken; the array and its indices hold exactly the rest; and the
  -- places that `put` writes and `take` reads lie in the array.
  pub zeroed-Reach :
      (array : List A) {t : System A}
      → 0 < length array
      → length array < word
      → Reach (length array) (start (zeroed array)) t
      → InOrder (length array) t
        × (take_locked (length array) t.queue ≢ fault)
        × (t.queue.head < length array)
        × (t.queue.tail < length array)
  zeroed-Reach array {t} positive small r = (
    v,
    no_fault (length array) t.queue v.items v.well_formed,
    head_in_bounds (length array) t.queue v.items v.well_formed,
    v.well_formed.tail_in,
  )
    where
      v : InOrder (length array) t
      v = Reach-InOrder (start-InOrder array positive small) r
