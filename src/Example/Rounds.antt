-- ===== src/Example/Rounds.antt =====
-- The automatic and the interactive run of raft_client.c, from their first round to their last.
use libraft.Prelude.{
  ℕ, zero, suc, ◌+◌, ◌%◌, ◌≡◌, refl, Bool, true, false, ◌&&◌, ◌⊎◌, List, [], ◌∷◌, map, Option,
  arith, ◌==◌, if◌then◌else◌, Bool-cases, inl, inr,
}
use libraft.World.{World, ret}
use libraft.Future.{nonzero}
use libraft.Example.Commands.{Line, Choice, choose, run_auto, run_interactive}
use libraft.Example.Run.{Serving, Partner, allocated, send_command_ends, take_snapshot_ends}

-- Whether a line is of a command.
abbrev pub of_command : Line → Bool
of_command (Line.command report) = true
of_command (Line.snapshot done) = false

-- What each of the rounds from `i` on prints: a command, and a snapshot if its number is a multiple
-- of the period.
abbrev pub printed : ℕ → ℕ → ℕ → List Bool
printed period zero i = []
printed period (suc left) i =
    let rest = printed period left (i + 1) in
    if nonzero period && i % period == 0 then true ∷ false ∷ rest else true ∷ rest

-- What each line up to the first that quits prints.
abbrev pub heard : (ℕ → List ℕ) → ℕ → List (List ℕ) → List Bool
heard junk i [] = []
heard junk i (line ∷ lines) =
    let rest = heard junk (i + 1) lines in
    elim (choose (junk i) line) [
      | Choice.quit ↦ []
      | Choice.take_a_snapshot ↦ false ∷ rest
      | Choice.send text ↦ true ∷ rest
    ]

Choice-cases :
    (c : Choice)
    → (c ≡ Choice.quit)
      ⊎ ((c ≡ Choice.take_a_snapshot) ⊎ ((text : List ℕ) × (c ≡ Choice.send text)))
Choice-cases Choice.quit = inl refl
Choice-cases Choice.take_a_snapshot = inr (inl refl)
Choice-cases (Choice.send text) = inr (inr (text, refl))

module _ {base size : ℕ} {env : ℕ → World → World} {heap : World → ℕ → Option ℕ}
    {sleep : World → World} {slot snap buffer : ℕ → ℕ}
    (others : Partner base size env heap sleep slot snap buffer) where
  open others use {rests, places}

  pub run_auto_ends :
      (period left i : ℕ) (w : World)
      → Serving base size w
      → (lines : List Line) × (w' : World) × (run_auto env heap sleep slot snap buffer period left i
            w
          ≡ ret lines w')
        × (map of_command lines ≡ printed period left i)
        × Serving base size w'
  unfolding run_auto
  run_auto_ends period zero i w o = ([], w, refl, refl, o)
  run_auto_ends period (suc left) i w o =
      let (at_slot, at_snap, at_buf, at_end) = places i in
      let (v, e, o') = allocated others (buffer i) w o in
      let (report, u, f, ou) =
        send_command_ends others (slot i) (buffer i) v o' at_slot at_buf at_end in
      elim (Bool-cases (nonzero period && i % period == 0)) [
        | inl due ↦
            let (done, x, g, ox) =
              take_snapshot_ends others (snap i) (sleep u) (rests u ou) at_snap in
            let (lines, w', h, m, ow) = run_auto_ends period left (i + 1) x ox in
            (
              Line.command report ∷ Line.snapshot done ∷ lines,
              w',
              ground (arith, e, f, due, g, h),
              ground (arith, due, m),
              ow,
            )
        | inr not_due ↦
            let (lines, w', h, m, ow) = run_auto_ends period left (i + 1) (sleep u) (rests u ou) in
            (
              Line.command report ∷ lines,
              w',
              ground (arith, e, f, not_due, h),
              ground (arith, not_due, m),
              ow,
            )
      ]

  pub run_interactive_ends :
      (junk : ℕ → List ℕ) (i : ℕ) (typed : List (List ℕ)) (w : World)
      → Serving base size w
      → (lines : List Line) × (w' : World) × (run_interactive env heap sleep slot snap buffer junk i
            typed w
          ≡ ret lines w')
        × (map of_command lines ≡ heard junk i typed)
        × Serving base size w'
  unfolding run_interactive
  run_interactive_ends junk i [] w o = ([], w, refl, refl, o)
  run_interactive_ends junk i (line ∷ typed) w o = elim (Choice-cases (choose (junk i) line)) [
    | inl quits ↦ ([], w, ground (arith, quits), ground (arith, quits), o)
    | inr (inl asks) ↦
        let (_, at_snap, _, _) = places i in
        let (done, x, g, ox) = take_snapshot_ends others (snap i) w o at_snap in
        let (lines, w', h, m, ow) = run_interactive_ends junk (i + 1) typed x ox in
        (Line.snapshot done ∷ lines, w', ground (arith, asks, g, h), ground (arith, asks, m), ow)
    | inr (inr (text, sends)) ↦
        let (at_slot, _, at_buf, at_end) = places i in
        let (v, e, o') = allocated others (buffer i) w o in
        let (report, u, f, ou) =
          send_command_ends others (slot i) (buffer i) v o' at_slot at_buf at_end in
        let (lines, w', h, m, ow) = run_interactive_ends junk (i + 1) typed u ou in
        (
          Line.command report ∷ lines,
          w',
          ground (arith, sends, e, f, h),
          ground (arith, sends, m),
          ow,
        )
  ]
