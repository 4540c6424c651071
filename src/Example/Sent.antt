-- ===== src/Example/Sent.antt =====
-- A command of the example client that Raft answers.
use libraft.Prelude.{
  ℕ, ◌≡◌, ◌≢◌, true, false, ◌∷◌, some, arith, Option, if◌then◌else◌, Bool-cases, inl, inr,
}
use libraft.Call.{Call}
use libraft.Slot.{Slot, is_success, is_terminal}
use libraft.World.{World, ret, inc, in_shm_bounds, free_buf}
use libraft.Future.{ready, dispose, raft_future_wait, raft_future_get_fsm_reply}
use libraft.Future.Results.{seen_in, ==_false}
use libraft.Future.Disposal.{freed}
use libraft.Client.{raft_apply}
use libraft.Example.Commands.{bufsize, Report, send_command}

-- A command that was sent, and that the others answer while the client waits, a success with
-- an address where a count is found: the client prints the count and gives its memory back, or the
-- error that came; in both cases the call and the command's buffer are given back, each once, and
-- nothing else differs from what the others left.
pub send_command_answered :
    (env : ℕ → World → World) (heap : World → ℕ → Option ℕ) (sleep : World → World)
    (p buf count : ℕ) (w w' : World) (s t : Slot)
    → p ≢ 0
    → raft_apply p buf bufsize 0 w ≡ ret p w'
    → in_shm_bounds w' p ≡ true
    → w'.slots p ≡ some s
    → is_terminal s.state ≡ false
    → (env p w').slots p ≡ some t
    → ready t ≡ true
    → t.call ≡ Call.apply
    → (is_success t.error ≡ true
        → (t.retval ≢ 0) × (heap (seen_in (env p w') p t) t.retval ≡ some count))
    → let after : World = freed (seen_in (env p w') p t) p in
      send_command env heap sleep p buf w
      ≡ ret
          (if is_success t.error
            then Report.letter_count count t.retval
            else Report.raft_error t.error)
          (record after {
            freed_buffers = buf ∷ after.freed_buffers;
            stats = record after.stats { buffer_free = inc after.stats.buffer_free };
          })
unfolding send_command raft_future_wait raft_future_get_fsm_reply dispose free_buf
send_command_answered env heap sleep p buf count w w' s t nz a b e o e' r c reply =
    elim (Bool-cases (is_success t.error)) [
      | inl yes_ ↦ ground (arith, ==_false nz, yes_, ==_false (reply yes_).0, (reply yes_).1)
      | inr no_ ↦ ground (arith, ==_false nz, no_)
    ]
