-- ===== src/Queue/Sleepers.antt =====
-- Counting sleepers against woken threads, for one kind of wait. `asleep` and `woken` tell where
-- a thread in that wait stands.
use libraft.Prelude.{
  ℕ, ◌+◌, ◌-◌, ◌≤◌, ◌≡◌, refl, Bool, true, false, List, [], ◌∷◌, arith, length, update, update_self,
  among, Distinct, without, length-without, without-Distinct, ◌==◌, Bool-cases, inl, inr,
}

module _ {P : Type 0} (asleep woken : P → Bool) where
  abbrev pub AllWoken : (ℕ → P) → List ℕ → Type 0
  AllWoken pc [] = Unit
  AllWoken pc (i ∷ is) = (woken (pc i) ≡ true) × AllWoken pc is

  -- So many threads at least are woken.
  pub record Alert (pc : ℕ → P) (need : ℕ) : Type 0 where
    pub awake : List ℕ
    pub distinct : Distinct awake
    pub all_woken : AllWoken pc awake
    pub enough : need ≤ length awake

  -- While anyone sleeps, at least `need` threads are woken.
  abbrev pub Watched : (ℕ → P) → ℕ → Type 0
  Watched pc need = (i : ℕ) → asleep (pc i) ≡ true → Alert pc need

  pub none_needed : {pc : ℕ → P} → Alert pc 0
  none_needed = record { awake = []; distinct = tt; all_woken = tt; enough = omega arith }

  fewer : {pc : ℕ → P} {m n : ℕ} → m ≤ n → Alert pc n → Alert pc m
  fewer h a = record {
    awake = a.awake;
    distinct = a.distinct;
    all_woken = a.all_woken;
    enough = omega arith;
  }

  woken-update :
      (pc : ℕ → P) (i j : ℕ) (p : P)
      → (woken (pc i) ≡ true → woken p ≡ true)
      → woken (pc j) ≡ true
      → woken (update pc i p j) ≡ true
  woken-update pc i j p h w = elim (Bool-cases (i == j)) [
    | inl e ↦ let same : i ≡ j = ground arith in rw e (h (rw same w))
    | inr e ↦ rw e w
  ]

  AllWoken-update :
      (pc : ℕ → P) (i : ℕ) (p : P) (is : List ℕ)
      → (woken (pc i) ≡ true → woken p ≡ true)
      → AllWoken pc is
      → AllWoken (update pc i p) is
  AllWoken-update pc i p [] h a = tt
  AllWoken-update pc i p (j ∷ js) h a =
      (woken-update pc i j p h a.0, AllWoken-update pc i p js h a.1)

  AllWoken-without :
      (pc : ℕ → P) (i : ℕ) (p : P) (is : List ℕ)
      → AllWoken pc is
      → AllWoken (update pc i p) (without i is)
  AllWoken-without pc i p [] a = tt
  AllWoken-without pc i p (j ∷ js) a = elim (Bool-cases (j == i)) [
    | inl e ↦ rw e (AllWoken-without pc i p js a.1)
    | inr e ↦
        let other : update pc i p j ≡ pc j = ground arith in
        rw e (rw other a.0, AllWoken-without pc i p js a.1)
  ]

  among-AllWoken :
      (pc : ℕ → P) (i : ℕ) (is : List ℕ)
      → woken (pc i) ≡ false
      → AllWoken pc is
      → among i is ≡ false
  among-AllWoken pc i [] h a = refl
  among-AllWoken pc i (j ∷ js) h a = elim (Bool-cases (j == i)) [
    | inl e ↦
        let same : j ≡ i = ground arith in
        let on : woken (pc i) ≡ true = rw same at a.0 in ground arith
    | inr e ↦ rw e (among-AllWoken pc i js h a.1)
  ]

  -- A thread moves that is not woken, or that stays so.
  pub kept :
      {pc : ℕ → P} {m n : ℕ} (i : ℕ) (p : P)
      → (woken (pc i) ≡ true → woken p ≡ true)
      → m ≤ n
      → Alert pc n
      → Alert (update pc i p) m
  kept {pc} i p h le a = record {
    awake = a.awake;
    distinct = a.distinct;
    all_woken = AllWoken-update pc i p a.awake h a.all_woken;
    enough = ground (arith, a.enough);
  }

  -- A thread that may be woken moves on, and one thread less is needed.
  pub spent :
      {pc : ℕ → P} {m n : ℕ} (i : ℕ) (p : P) → m ≤ n - 1 → Alert pc n → Alert (update pc i p) m
  spent {pc} i p le a = record {
    awake = without i a.awake;
    distinct = without-Distinct i a.awake a.distinct;
    all_woken = AllWoken-without pc i p a.awake a.all_woken;
    enough = omega (arith, length-without i a.awake a.distinct, a.enough);
  }

  -- A thread is woken, and one more is needed.
  pub notified :
      {pc : ℕ → P} {m n : ℕ} (i : ℕ) (p : P)
      → woken (pc i) ≡ false
      → woken p ≡ true
      → m ≤ n + 1
      → Alert pc n
      → Alert (update pc i p) m
  notified {pc} i p off on le a = record {
    awake = i ∷ a.awake;
    distinct = (among-AllWoken pc i a.awake off a.all_woken, a.distinct);
    all_woken = (rw (update_self pc i p) on, AllWoken-update pc i p a.awake (λ _. on) a.all_woken);
    enough = omega (arith, a.enough);
  }

  -- A thread that does not go to sleep leaves the sleepers as they were, or fewer.
  pub moved-Watched :
      {pc : ℕ → P} {m n : ℕ} (i : ℕ) (p : P)
      → asleep p ≡ false
      → (Alert pc n → Alert (update pc i p) m)
      → Watched pc n
      → Watched (update pc i p) m
  moved-Watched {pc} i p off f w k e = elim (Bool-cases (i == k)) [
    | inl s ↦ let on : asleep p ≡ true = rw s at e in absurd (ground arith)
    | inr s ↦ let on : asleep (pc k) ≡ true = rw s at e in f (w k on)
  ]

  pub fewer-Watched : {pc : ℕ → P} {m n : ℕ} → m ≤ n → Watched pc n → Watched pc m
  fewer-Watched h w i e = fewer h (w i e)

  -- Nobody is needed.
  pub idle-Watched : {pc : ℕ → P} {n : ℕ} → n ≡ 0 → Watched pc n
  idle-Watched z i e = fewer (omega arith) none_needed

  pub unslept-Watched : {pc : ℕ → P} {n : ℕ} → ((i : ℕ) → asleep (pc i) ≡ false) → Watched pc n
  unslept-Watched h i e = absurd (ground (arith, h i))
