-- ===== src/Orphans/Rounds.antt =====
-- What every round of the collector keeps, because each try to free an orphan and each take from the
-- queue do.
use libraft.Prelude.{
  ◌≡◌, arith, ℕ, Bool, not, ◌&&◌, List, [], ◌∷◌, ◌++◌, Option, none, some, Bool-cases, inl, inr,
  subst, ap, if◌then◌else◌,
}
use libraft.World.{World, Outcome, M, pure, ◌>>=◌, bind-ret, branch, ret}
use libraft.Orphans.{try_dispose_orphan, scan_orphans, next_orphan, take_in, is_empty, gc_round}

-- What `scan_orphans` does after its first call, and after the rest of the scan.
abbrev kept : ℕ → Bool → List ℕ → M (List ℕ)
kept c gone rest = pure (if gone then rest else c ∷ rest)

abbrev rest_of_scan : ℕ → List ℕ → Bool → M (List ℕ)
rest_of_scan c cs gone = scan_orphans cs >>= kept c gone

abbrev end_of_round : Bool → List ℕ → M (List ℕ)
end_of_round late backlog =
    branch (late && not (is_empty backlog)) (scan_orphans backlog) (pure backlog)

module _ (P : World → Type 0)
    (tried : (p : ℕ) (b : Bool) (w w' : World) → try_dispose_orphan p w ≡ ret b w' → P w → P w')
    (taken : (backlog : List ℕ) (b : Bool) (o : Option ℕ) (w w' : World)
      → next_orphan backlog b w ≡ ret o w'
      → P w
      → P w') where
  world_of : {A : Type 0} → World → Outcome A → World
  world_of w (ret a w') = w'
  world_of w _ = w

  moved : {A : Type 0} {a b : A} {w w' : World} → P w → ret a w ≡ ret b w' → P w'
  unfolding world_of
  moved {w} k e = subst P (ap (world_of w) e) k

  scan_keeps : (cs rest : List ℕ) (w w' : World) → scan_orphans cs w ≡ ret rest w' → P w → P w'
  unfolding scan_orphans
  scan_keeps [] rest w w' e k = moved k e
  scan_keeps (c ∷ cs) rest w w' e k =
      let (gone, v, f, g) = bind-ret (try_dispose_orphan c) (rest_of_scan c cs) w rest w' e in
      let (r, u, h, i) = bind-ret (scan_orphans cs) (kept c gone) v rest w' g in
      moved (scan_keeps cs r v u h (tried c gone w v f k)) i

  take_in_keeps :
      (backlog rest : List ℕ) (o : Option ℕ) (w w' : World)
      → take_in backlog o w ≡ ret rest w'
      → P w
      → P w'
  unfolding take_in
  take_in_keeps backlog rest none w w' e k = moved k e
  take_in_keeps backlog rest (some p) w w' e k =
      let (gone, v, f, g) =
        bind-ret (try_dispose_orphan p) (λ gone. pure (if gone then backlog else backlog ++ p ∷ []))
          w rest w' e in
      moved (tried p gone w v f k) g

  end_keeps :
      (late : Bool) (backlog rest : List ℕ) (w w' : World)
      → end_of_round late backlog w ≡ ret rest w'
      → P w
      → P w'
  end_keeps late backlog rest w w' e k = elim (Bool-cases (late && not (is_empty backlog))) [
    | inl h ↦ scan_keeps backlog rest w w' (ground (arith, h)) k
    | inr h ↦ let m : ret backlog w ≡ ret rest w' = ground (arith, h) in moved k m
  ]

  pub gc_round_keeps :
      (backlog rest : List ℕ) (timed_out late : Bool) (w w' : World)
      → gc_round backlog timed_out late w ≡ ret rest w'
      → P w
      → P w'
  unfolding gc_round
  gc_round_keeps backlog rest timed_out late w w' e k =
      let (o, v, f, g) =
        bind-ret (next_orphan backlog timed_out) (λ o. take_in backlog o >>= end_of_round late) w
          rest w' e in
      let (b, u, h, i) = bind-ret (take_in backlog o) (end_of_round late) v rest w' g in
      end_keeps late b rest u w' i
        (take_in_keeps backlog b o v u h (taken backlog timed_out o w v f k))
