-- ===== src/Queue/Blocking/Heard.antt =====
-- How the sleepers and the woken threads change when a thread moves, stores, fetches or goes to sleep.
use libraft.Prelude.{
  ℕ, ◌+◌, ◌-◌, ◌<◌, ◌≡◌, ◌≢◌, refl, sym, subst, ap, Bool, true, false, arith, update,
}
use libraft.Queue.Blocking.Threads.{
  Pc, idle, put_asleep, put_woken, take_asleep, take_woken, returned, got, raised, AtRest, wake,
  NotifiesTaker, taker, no_taker, NotifiesPutter, putter, no_putter,
}
use libraft.Queue.Sleepers.{
  Watched, kept, spent, notified, moved-Watched, idle-Watched, unslept-Watched,
}

module _ {A : Type 0} where
  abbrev pub taker_asleep : Pc A → Bool
  taker_asleep take_asleep = true
  taker_asleep _ = false

  abbrev pub taker_woken : Pc A → Bool
  taker_woken take_woken = true
  taker_woken _ = false

  abbrev pub putter_asleep : Pc A → Bool
  putter_asleep (put_asleep v) = true
  putter_asleep _ = false

  abbrev pub putter_woken : Pc A → Bool
  putter_woken (put_woken v) = true
  putter_woken _ = false

  -- With `count` values in the queue.
  pub record Heard (limit : ℕ) (pc : ℕ → Pc A) (count : ℕ) : Type 0 where
    pub takers : Watched taker_asleep taker_woken pc count
    pub putters : Watched putter_asleep putter_woken pc (limit - count)

  pub AtRest-unwoken : (p : Pc A) → AtRest p → (taker_woken p ≡ false) × (putter_woken p ≡ false)
  AtRest-unwoken idle r = (refl, refl)
  AtRest-unwoken returned r = (refl, refl)
  AtRest-unwoken (got v) r = (refl, refl)
  AtRest-unwoken raised r = (refl, refl)
  AtRest-unwoken p r = elim r [ ]

  -- A thread that goes on, and neither sleeps nor was woken.
  pub moved-Heard :
      (limit : ℕ) (pc : ℕ → Pc A) (count i : ℕ) (p : Pc A)
      → taker_asleep p ≡ false
      → putter_asleep p ≡ false
      → taker_woken (pc i) ≡ false
      → putter_woken (pc i) ≡ false
      → Heard limit pc count
      → Heard limit (update pc i p) count
  moved-Heard limit pc count i p a b c d h = record {
    takers =
        moved-Watched taker_asleep taker_woken i p a
          (kept taker_asleep taker_woken i p (λ e. absurd (ground arith)) (omega arith)) h.takers;
    putters =
        moved-Watched putter_asleep putter_woken i p b
          (kept putter_asleep putter_woken i p (λ e. absurd (ground arith)) (omega arith))
          h.putters;
  }

  not_taker_asleep : (p : Pc A) → p ≢ take_asleep → taker_asleep p ≡ false
  not_taker_asleep take_asleep h = absurd (h refl)
  not_taker_asleep idle h = refl
  not_taker_asleep p h = refl

  not_putter_asleep : (p : Pc A) → ((v : A) → p ≢ put_asleep v) → putter_asleep p ≡ false
  not_putter_asleep (put_asleep v) h = absurd (h v refl)
  not_putter_asleep idle h = refl
  not_putter_asleep p h = refl

  -- A value was stored by thread `i`, and a taker was woken if one slept.
  pub stored-Heard :
      (limit : ℕ) (pc : ℕ → Pc A) {pc' : ℕ → Pc A} (count i : ℕ)
      → taker_woken (pc i) ≡ false
      → count < limit
      → NotifiesTaker (update pc i returned) pc'
      → Heard limit pc count
      → Heard limit pc' (count + 1)
  stored-Heard limit pc count i w lt n h = go n
    where
      putters : Watched putter_asleep putter_woken (update pc i returned) (limit - (count + 1))
      putters =
          moved-Watched putter_asleep putter_woken i returned refl
            (spent putter_asleep putter_woken i returned (omega arith)) h.putters

      takers : Watched taker_asleep taker_woken (update pc i returned) count
      takers =
          moved-Watched taker_asleep taker_woken i returned refl
            (kept taker_asleep taker_woken i returned (λ e. absurd (ground arith)) (omega arith))
            h.takers

      go : {pc' : ℕ → Pc A} → NotifiesTaker (update pc i returned) pc' → Heard limit pc' (count + 1)
      go (taker j e m) =
          subst (λ q. Heard limit q (count + 1)) (sym m)
            (record {
              takers =
                  moved-Watched taker_asleep taker_woken j take_woken refl
                    (notified taker_asleep taker_woken j take_woken (ap taker_woken e) refl
                      (omega arith))
                    takers;
              putters =
                  moved-Watched putter_asleep putter_woken j take_woken refl
                    (kept putter_asleep putter_woken j take_woken
                      (λ on. absurd (ground (arith, ap putter_woken e))) (omega arith))
                    putters;
            })
      go (no_taker none m) =
          subst (λ q. Heard limit q (count + 1)) (sym m)
            (record {
              takers =
                  unslept-Watched taker_asleep taker_woken
                    λ k. not_taker_asleep (update pc i returned k) (none k);
              putters = putters;
            })

  -- A value was fetched by thread `i`, and a putter was woken if one slept.
  pub fetched-Heard :
      (limit : ℕ) (pc : ℕ → Pc A) {pc' : ℕ → Pc A} (count i : ℕ) (v : A)
      → putter_woken (pc i) ≡ false
      → count < limit
      → NotifiesPutter (update pc i (got v)) pc'
      → Heard limit pc (count + 1)
      → Heard limit pc' count
  fetched-Heard limit pc count i v w lt n h = go n
    where
      putters : Watched putter_asleep putter_woken (update pc i (got v)) (limit - (count + 1))
      putters =
          moved-Watched putter_asleep putter_woken i (got v) refl
            (kept putter_asleep putter_woken i (got v) (λ e. absurd (ground arith)) (omega arith))
            h.putters

      takers : Watched taker_asleep taker_woken (update pc i (got v)) count
      takers =
          moved-Watched taker_asleep taker_woken i (got v) refl
            (spent taker_asleep taker_woken i (got v) (omega arith)) h.takers

      go : {pc' : ℕ → Pc A} → NotifiesPutter (update pc i (got v)) pc' → Heard limit pc' count
      go (putter j x e m) =
          subst (λ q. Heard limit q count) (sym m)
            (record {
              takers =
                  moved-Watched taker_asleep taker_woken j (put_woken x) refl
                    (kept taker_asleep taker_woken j (put_woken x)
                      (λ on. absurd (ground (arith, ap taker_woken e))) (omega arith))
                    takers;
              putters =
                  moved-Watched putter_asleep putter_woken j (put_woken x) refl
                    (notified putter_asleep putter_woken j (put_woken x) (ap putter_woken e) refl
                      (omega arith))
                    putters;
            })
      go (no_putter none m) =
          subst (λ q. Heard limit q count) (sym m)
            (record {
              takers = takers;
              putters =
                  unslept-Watched putter_asleep putter_woken
                    λ k. not_putter_asleep (update pc i (got v) k) (none k);
            })

  -- A thread goes to sleep where nothing is to be had.
  pub taker_sleeps-Heard :
      (limit : ℕ) (pc : ℕ → Pc A) (count i : ℕ)
      → putter_woken (pc i) ≡ false
      → count ≡ 0
      → Heard limit pc count
      → Heard limit (update pc i take_asleep) count
  taker_sleeps-Heard limit pc count i w z h = record {
    takers = idle-Watched taker_asleep taker_woken z;
    putters =
        moved-Watched putter_asleep putter_woken i take_asleep refl
          (kept putter_asleep putter_woken i take_asleep (λ e. absurd (ground arith)) (omega arith))
          h.putters;
  }

  pub putter_sleeps-Heard :
      (limit : ℕ) (pc : ℕ → Pc A) (count i : ℕ) (v : A)
      → taker_woken (pc i) ≡ false
      → count ≡ limit
      → Heard limit pc count
      → Heard limit (update pc i (put_asleep v)) count
  putter_sleeps-Heard limit pc count i v w z h = record {
    takers =
        moved-Watched taker_asleep taker_woken i (put_asleep v) refl
          (kept taker_asleep taker_woken i (put_asleep v) (λ e. absurd (ground arith))
            (omega arith))
          h.takers;
    putters = idle-Watched putter_asleep putter_woken (omega arith);
  }

  wake_lem :
      (p : Pc A)
      → (taker_asleep (wake p) ≡ false)
        × (putter_asleep (wake p) ≡ false)
        × (taker_woken p ≡ true → taker_woken (wake p) ≡ true)
        × (putter_woken p ≡ true → putter_woken (wake p) ≡ true)
  wake_lem idle = (refl, refl, (λ e. e), (λ e. e))
  wake_lem take_asleep = (refl, refl, (λ e. refl), (λ e. e))
  wake_lem (put_asleep v) = (refl, refl, (λ e. e), (λ e. refl))
  wake_lem p = (refl, refl, (λ e. e), (λ e. e))

  pub spurious-Heard :
      (limit : ℕ) (pc : ℕ → Pc A) (count i : ℕ)
      → Heard limit pc count
      → Heard limit (update pc i (wake (pc i))) count
  spurious-Heard limit pc count i h =
      let (a, b, c, d) = wake_lem (pc i) in
      record {
        takers =
            moved-Watched taker_asleep taker_woken i (wake (pc i)) a
              (kept taker_asleep taker_woken i (wake (pc i)) c (omega arith)) h.takers;
        putters =
            moved-Watched putter_asleep putter_woken i (wake (pc i)) b
              (kept putter_asleep putter_woken i (wake (pc i)) d (omega arith)) h.putters;
      }
