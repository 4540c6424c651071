-- ===== src/Example/Served.antt =====
-- What `main` of raft_client.c does between `raft_init` and `raft_cleanup`.
use libraft.Prelude.{
  ℕ, zero, suc, ◌<◌, ◌≡◌, refl, Bool, true, false, ◌⊎◌, List, map, Option, none, some, ap, arith,
  update, update_self, if◌then◌else◌, Bool-cases, inl, inr,
}
use libraft.Errors.{RaftError}
use libraft.Call.{Call, Args, has_ret}
use libraft.Slot.{new_slot, is_success}
use libraft.World.{World, ret, branch}
use libraft.Future.{raft_future_wait, raft_future_get_stats}
use libraft.Future.Results.{seen_in, ==_false, future_get_open}
use libraft.Client.{raft_stats, raft_shutdown, raft_is_leader}
use libraft.Client.Sending.{fresh}
use libraft.Printing.{Tokenizer, Printed, raft_print_stats}
use libraft.Example.Options.{Settings}
use libraft.Example.Commands.{Line, run_auto, run_interactive}
use libraft.Example.Program.{wait_to_lead, main_serve}
use libraft.Example.Run.{
  Inside, Serving, Answers, Partner, asked, asked_lem, asked-Answers, Inside-in_shm_bounds,
}
use libraft.Example.Rounds.{of_command, printed, heard, run_auto_ends, run_interactive_ends}

-- After so many seconds.
abbrev pub slept : (World → World) → ℕ → World → World
slept sleep zero w = w
slept sleep (suc n) w = slept sleep n (sleep w)

-- How `main` comes to `raft_cleanup`, which is with 0, the statistics printed.
abbrev pub Finished : (ℕ → ℕ) → Tokenizer → (ℕ → List ℕ) → ℕ → Option Printed → Type 0
Finished address_of jsmn_parse text_at rc out =
    (rc ≡ 1)
    ⊎ ((rc ≡ 0)
        × ((handle : ℕ) × (out
              ≡ some (raft_print_stats jsmn_parse (some (text_at (address_of handle)))))))

finished :
    (address_of : ℕ → ℕ) (jsmn_parse : Tokenizer) (text_at : ℕ → List ℕ) (b : Bool) (handle : ℕ)
    → Finished address_of jsmn_parse text_at
        (if b then 0 else 1)
        (some (raft_print_stats jsmn_parse (some (text_at (address_of handle)))))
finished address_of jsmn_parse text_at true handle = inr (refl, (handle, refl))
finished address_of jsmn_parse text_at false handle = inl refl

module _ {base size : ℕ} {env : ℕ → World → World} {heap : World → ℕ → Option ℕ}
    {sleep : World → World} {slot snap buffer : ℕ → ℕ}
    (others : Partner base size env heap sleep slot snap buffer) where
  open others use {answers, rests}

  wait_to_lead_ends :
      (looks n : ℕ) (w : World)
      → n < looks
      → (slept sleep n w).is_leader ≡ true
      → Serving base size w
      → (w' : World) × (wait_to_lead env heap sleep slot snap buffer looks w ≡ ret tt w')
        × Serving base size w'
  unfolding wait_to_lead raft_is_leader
  wait_to_lead_ends zero n w h l o = absurd (omega arith)
  wait_to_lead_ends (suc looks) zero w h l o = (w, ground (arith, l), o)
  wait_to_lead_ends (suc looks) (suc n) w h l o = elim (Bool-cases w.is_leader) [
    | inl leads ↦ (w, ground (arith, leads), o)
    | inr follows ↦
        let (w', f, o') = wait_to_lead_ends looks n (sleep w) (omega arith) l (rests w o) in
        (w', ground (arith, follows, f), o')
  ]

  stats_asked :
      (address_of : ℕ → ℕ) (p : ℕ) (w : World)
      → Serving base size w
      → Inside base size p
      → let w1 : World = asked w p Call.stats Args.no_args in
        (a : Answers base size env heap sleep p w1 (fresh w Call.stats Args.no_args)) × (raft_stats
            p w
          ≡ ret p w1)
        × (raft_future_get_stats env address_of p true w1
            ≡ ret
                (
                  a.answer.error,
                  if is_success a.answer.error then some (address_of a.answer.retval) else none,
                )
                (seen_in (env p w1) p a.answer))
  unfolding raft_stats raft_future_get_stats new_slot
  stats_asked address_of p w o i =
      let w1 = asked w p Call.stats Args.no_args in
      let a = asked-Answers others p Call.stats Args.no_args w o in
      let got =
        future_get_open env p w1 (fresh w Call.stats Args.no_args) a.answer i.0
          (Inside-in_shm_bounds base size p w1 i o.base_at o.size_at)
          (update_self (update w.slots p (some (new_slot Call.stats Args.no_args))) p
            (some (fresh w Call.stats Args.no_args)))
          refl a.slot a.ready (ap has_ret a.call) in
      (
        a,
        asked_lem p Call.stats Args.no_args w o.opened o.room,
        elim (Bool-cases (is_success a.answer.error)) [
          | inl good ↦ ground (arith, ==_false i.0, got, good, ==_false (a.handle refl good))
          | inr bad ↦ ground (arith, ==_false i.0, got, bad)
        ],
      )

  abbrev closing : World → World
  closing w = record w { shutdown_requested = true }

  shutdown_asked :
      (p : ℕ) (w : World)
      → Serving base size w
      → Inside base size p
      → (w1 w2 : World) × (err : RaftError) × (raft_shutdown p w ≡ ret p w1)
        × (raft_future_wait env p w1 ≡ ret err w2)
  unfolding raft_shutdown raft_future_wait new_slot
  shutdown_asked p w o i =
      let o' : Serving base size (closing w) = record {
        base_at = o.base_at;
        size_at = o.size_at;
        opened = o.opened;
        room = o.room;
      } in
      let w1 = asked (closing w) p Call.shutdown Args.no_args in
      let a = asked-Answers others p Call.shutdown Args.no_args (closing w) o' in
      (
        w1,
        seen_in (env p w1) p a.answer,
        a.answer.error,
        asked_lem p Call.shutdown Args.no_args (closing w) o.opened o.room,
        ground (
          arith,
          ==_false i.0,
          Inside-in_shm_bounds base size p w1 i o.base_at o.size_at,
          a.slot,
          a.ready,
        ),
      )

  -- The run that the settings choose.
  chosen :
      (s : Settings) (junk : ℕ → List ℕ) (typed : List (List ℕ)) (w : World)
      → Serving base size w
      → (lines : List Line) × (w' : World) × (branch s.interactive
            (run_interactive env heap sleep slot snap buffer junk 0 typed)
            (run_auto env heap sleep slot snap buffer s.snapshot_period s.runs 1)
            w
          ≡ ret lines w')
        × (map of_command lines
            ≡ (if s.interactive then heard junk 0 typed else printed s.snapshot_period s.runs 1))
        × Serving base size w'
  chosen s junk typed w o = elim (Bool-cases s.interactive) [
    | inl i ↦
        let (lines, w', f, m, o') = run_interactive_ends others junk 0 typed w o in
        (lines, w', ground (arith, i, f), ground (arith, i, m), o')
    | inr i ↦
        let (lines, w', f, m, o') = run_auto_ends others s.snapshot_period s.runs 1 w o in
        (lines, w', ground (arith, i, f), ground (arith, i, m), o')
  ]

  -- `main` between the library's start and its end.
  pub main_serve_ends :
      (address_of : ℕ → ℕ) (jsmn_parse : Tokenizer) (text_at : ℕ → List ℕ) (looks n : ℕ)
      (s : Settings) (junk : ℕ → List ℕ) (typed : List (List ℕ)) (stats_slot shutdown_slot : ℕ)
      (w : World)
      → n < looks
      → (slept sleep n w).is_leader ≡ true
      → Serving base size w
      → Inside base size stats_slot
      → Inside base size shutdown_slot
      → (rc : ℕ) × (lines : List Line) × (out : Option Printed) × (w' : World) × (main_serve env
            heap sleep slot snap buffer address_of jsmn_parse text_at looks s junk typed
            (stats_slot, shutdown_slot)
            w
          ≡ ret (rc, lines, out) w')
        × (map of_command lines
            ≡ (if s.interactive then heard junk 0 typed else printed s.snapshot_period s.runs 1))
        × Finished address_of jsmn_parse text_at rc out
  unfolding main_serve
  main_serve_ends address_of jsmn_parse text_at looks n s junk typed p q w h l o ip iq =
      let (w1, f1, o1) = wait_to_lead_ends looks n w h l o in
      let (lines, w2, f2, m, o2) = chosen s junk typed w1 o1 in
      let (a, f3, f4) = stats_asked address_of p w2 o2 ip in
      let w3 = asked w2 p Call.stats Args.no_args in
      let w4 = seen_in (env p w3) p a.answer in
      elim (Bool-cases (is_success a.answer.error)) [
        | inr bad ↦ (1, lines, none, w4, ground (arith, f1, f2, f3, f4, bad), m, inl refl)
        | inl good ↦
            let o4 : Serving base size w4 = record {
              base_at = a.serving.base_at;
              size_at = a.serving.size_at;
              opened = a.serving.opened;
              room = a.serving.room;
            } in
            let (w5, w6, err, f5, f6) = shutdown_asked q w4 o4 iq in
            (
              if is_success err then 0 else 1,
              lines,
              some (raft_print_stats jsmn_parse (some (text_at (address_of a.answer.retval)))),
              w6,
              ground (arith, f1, f2, f3, f4, good, f5, f6),
              m,
              finished address_of jsmn_parse text_at (is_success err) a.answer.retval,
            )
      ]
