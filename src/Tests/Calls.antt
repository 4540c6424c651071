-- ===== src/Tests/Calls.antt =====
-- Runs of the life of a call: sent, answered, read, given up and collected.
use libraft.Prelude.{
  ◌≢◌, ◌⊎◌, inl, arith, List, among, Distinct, length, ◌+◌, ◌%◌, ◌^◌, ℕ, ◌≡◌, refl, true, false, [],
  ◌∷◌, none, some, update, if◌then◌else◌,
}
use libraft.Errors.{RaftError, RaftLogType}
use libraft.Call.{Call, Args}
use libraft.Slot.{Slot, CallState, ClientState, new_slot, reply_err, reply_val, is_terminal}
use libraft.Slot.Waiting
use libraft.Slot.Waiters.{lone_waiter_awake, two_waiters, Reply, reply_with}
use libraft.World.{World, aborted, ret, in_shm_bounds}
use libraft.Queue.Blocking.{put, take as take_call}
use libraft.Queue.Deque.{take}
use libraft.Fsm.{RaftFsm, fsm_worker_step}
use libraft.Request.{send_api_request, send_fsm_request}
use libraft.Future.{poll, dispose, future_get, raft_future_wait, ready}
use libraft.Future.Results.{seen_in, future_get_open, future_get_terminal}
use libraft.Future.Disposal.{disposed, dispose_lem, consume, freed}
use libraft.Client.{raft_leader, raft_last_index, raft_apply, raft_apply_sync}
use libraft.Client.Sending.{fresh, refused, closed_api_queue}
use libraft.Client.Closed.{closed_leader_aborts}
use libraft.Client.Sync.{sync_answered, sync_refused}
use libraft.Orphans.{try_dispose_orphan, scan_orphans, gc_round, gc_rounds}
use libraft.Orphans.CatchUp.{queueing, gc_catches_up}
use libraft.Orphans.{next_orphan}
use libraft.Orphans.Tracked.{Tracked, Collects}
use libraft.Orphans.Safe
use libraft.Orphans.Safe.{Reach-Collects}
use libraft.Orphans.Abandoned.{collected, try_dispose_orphan_lem, polled_apply_freed_twice}
use libraft.Ledger.{in_use}
use libraft.Ledger.Kept.{Even-refl}
use libraft.Ledger.Reached as Ledger
use libraft.Ledger.Reached.{Reach-Balanced}
use libraft.Orphans.Buffers.{staying, leaving, times, owing}
use libraft.Orphans.Scan.{Scanned, scan_orphans_lem}
use libraft.Tests.Samples.{ne_0, no_calls, world, slot_of, holding, holding_two}

-- The call at 5000, before its answer and after it.
abbrev args : Args
args = Args.apply_args 6000 10 0

abbrev sent : Slot
sent = slot_of Call.apply args CallState.pending ClientState.issued 0 RaftError.success

abbrev failed : Slot
failed = slot_of Call.apply args CallState.error ClientState.issued 0 RaftError.leader

abbrev given_up : Slot
given_up = slot_of Call.apply args CallState.success ClientState.abandoned 42 RaftError.success

-- The others answer the call at 5000 with an error, and change nothing else.
abbrev env : ℕ → World → World
env p w = record w { slots = update w.slots p (some failed) }

future_get_waits :
    future_get env 5000 true (holding 5000 sent)
    ≡ ret (RaftError.leader, none) (seen_in (env 5000 (holding 5000 sent)) 5000 failed)
unfolding in_shm_bounds
future_get_waits =
    future_get_open env 5000 (holding 5000 sent) sent failed ne_0 refl refl refl refl refl refl

future_get_terminal_example :
    (future_get env 5000 true (holding 5000 failed)
      ≡ ret (RaftError.success, some 0) (holding 5000 failed))
    × (raft_future_wait env 5000 (holding 5000 failed)
        ≡ ret RaftError.leader (seen_in (holding 5000 failed) 5000 failed))
unfolding in_shm_bounds
future_get_terminal_example =
    future_get_terminal env 5000 (holding 5000 failed) failed ne_0 refl refl refl refl

abandoned_freed :
    dispose 5000 (holding 5000 given_up)
    ≡ ret tt (disposed (holding 5000 given_up) 5000 given_up ClientState.abandoned)
abandoned_freed = dispose_lem 5000 (holding 5000 given_up) given_up refl refl

disposed_at_once : try_dispose_orphan 5000 (holding 5000 given_up) ≡ (
    if ready given_up
    then ret true (collected (holding 5000 given_up) 5000 given_up)
    else ret false (holding 5000 given_up))
disposed_at_once = try_dispose_orphan_lem 5000 (holding 5000 given_up) given_up ne_0 refl refl

polled_apply_freed_twice_example :
    (w' w'' : World) × (poll 5000 (holding 5000 failed) ≡ ret true (holding 5000 failed))
    × (consume env 5000 6000 (holding 5000 failed) ≡ ret (RaftError.leader, none) w')
    × (gc_round [] false false w' ≡ ret [] w'')
    × (w''.freed_buffers ≡ 6000 ∷ 6000 ∷ [])
unfolding in_shm_bounds
polled_apply_freed_twice_example =
    polled_apply_freed_twice env 5000 6000 10 0 (holding 5000 failed) failed ne_0 refl refl refl
      refl refl refl refl

-- Two abandoned calls, the first of them not answered.
abbrev unanswered : Slot
unanswered = slot_of Call.apply args CallState.pending ClientState.abandoned 0 RaftError.success

abbrev two : World
two = holding_two 5000 unanswered 5400 given_up

backlog_of_two :
    (w' : World) × (scan_orphans (5000 ∷ 5400 ∷ []) two
      ≡ ret (staying two.slots (5000 ∷ 5400 ∷ [])) w')
    × Scanned two (5000 ∷ 5400 ∷ []) w'
backlog_of_two =
    scan_orphans_lem (5000 ∷ 5400 ∷ []) two
      ((unanswered, refl, refl), ne_0, refl, ((given_up, refl, refl), ne_0, refl, tt))

-- The same two, the first in the backlog and the second in the orphan queue.
gc_catches_up_example :
    (w' : World) × (gc_rounds (5000 ∷ []) ((false, true) ∷ []) (queueing two (5400 ∷ []))
      ≡ ret (staying two.slots (5000 ∷ 5400 ∷ [])) w')
    × ((q : ℕ)
        → w'.slots q
          ≡ (if among q (leaving two.slots (5000 ∷ 5400 ∷ [])) then none else two.slots q))
    × ((b : ℕ)
        → times b w'.freed_buffers
          ≡ owing (in_shm_bounds two) two.slots b (5000 ∷ 5400 ∷ []) + times b two.freed_buffers)
    × (w'.orphaned_calls ≡ record { items = []; closed = false })
unfolding in_shm_bounds
gc_catches_up_example =
    gc_catches_up [] (5000 ∷ []) (5400 ∷ []) (queueing two (5400 ∷ [])) refl
      ((unanswered, refl, refl), ne_0, refl, ((given_up, refl, refl), ne_0, refl, tt)) refl

-- The API queue is closed.
abbrev shut : World
shut = record world { api_queue = record no_calls { closed = true } }

closed_api_queue_example :
    (w' : World) × (send_api_request 5000 Call.apply args shut ≡ ret 5000 w')
    × (w'.slots 5000 ≡ some (refused (fresh shut Call.apply args) RaftError.in_shutdown))
    × (w'.api_queue ≡ shut.api_queue)
    × (raft_future_wait env 5000 w'
        ≡ ret RaftError.in_shutdown
            (seen_in w' 5000 (refused (fresh shut Call.apply args) RaftError.in_shutdown)))
unfolding in_shm_bounds
closed_api_queue_example = closed_api_queue env 5000 Call.apply args shut ne_0 refl refl

-- No memory that belongs to a command.
sync_refused_example :
    (w' : World) × (raft_apply_sync env 5000 80 8 0 true world
      ≡ ret (RaftError.invalid_address, none) w')
    × (w'.slots 5000 ≡ none)
    × (w'.freed_slots ≡ 5000 ∷ [])
    × (w'.freed_buffers ≡ [])
    × (w'.api_queue ≡ world.api_queue)
    × (w'.orphaned_calls ≡ world.orphaned_calls)
unfolding in_shm_bounds
sync_refused_example = sync_refused env 5000 80 8 0 world ne_0 refl refl

-- A command of ten bytes at 6000 is sent, and answered during the wait.
abbrev entered : World
entered = elim (raft_apply 5000 6000 10 0 world) [ ret p w ↦ w | _ ↦ world ]

abbrev waiting : Slot
waiting = fresh world Call.apply args

sync_answered_example :
    raft_apply_sync env 5000 6000 10 0 true world
    ≡ ret (RaftError.leader, none) (freed (seen_in (env 5000 entered) 5000 failed) 5000)
unfolding in_shm_bounds raft_apply send_api_request new_slot put
sync_answered_example =
    sync_answered env 5000 6000 10 0 world entered waiting failed ne_0 refl refl refl refl refl refl
      refl

closed_leader_aborts_example :
    (v w' : World) × (raft_leader env (λ h. h) 5000 true shut ≡ aborted v)
    × (raft_last_index env 5000 shut ≡ ret 0 w')
unfolding in_shm_bounds
closed_leader_aborts_example = closed_leader_aborts env (λ h. h) 5000 shut ne_0 refl refl refl

-- A machine that counts its commands.
abbrev counting : RaftFsm ℕ
counting = record {
  apply = λ st index term t buf len. (st + 1, st);
  begin_snapshot = λ st path p w. (st, w);
  restore = λ st path. (st, 0);
}

-- A command is sent to it, served, waited for and given up.
abbrev entry : Args
entry = Args.log_entry 1 1 RaftLogType.command 64 3

abbrev asked : World
asked = elim (send_fsm_request 5000 Call.fsm_apply entry world) [ ret p w ↦ w | _ ↦ world ]

abbrev served : World
served = elim (fsm_worker_step (λ h. h) counting 6 asked) [ ret st w ↦ w | _ ↦ asked ]

abbrev heard : World
heard = elim (raft_future_wait (λ p w. w) 5000 served) [ ret err w ↦ w | _ ↦ served ]

abbrev left : World
left = elim (dispose 5000 heard) [ ret u w ↦ w | _ ↦ heard ]

served_and_left : Ledger.Reach (λ h. h) counting world left
unfolding send_fsm_request dispose new_slot put take_call libraft.Queue.Deque.put fsm_worker_step
    reply_val raft_future_wait in_shm_bounds
served_and_left =
    Ledger.next
      (Ledger.next {u = served}
        (Ledger.next {u = asked}
          (Ledger.next {u = world} Ledger.here
            (Ledger.sends_fsm 5000 5000 Call.fsm_apply entry refl refl))
          (Ledger.serves 6 7 refl))
        (Ledger.waits 5000 RaftError.success refl))
      (Ledger.disposes 5000 refl)

Reach-Balanced_example :
    (live : List ℕ) × Distinct live
    × ((p : ℕ) → among p live ≡ in_use (left.slots p))
    × (left.stats.call_alloc ≡ (left.stats.call_free + length live) % 2 ^ 64)
Reach-Balanced_example =
    Reach-Balanced (λ h. h) counting (λ st path p w. Even-refl w) {w = world} {w' = left}
      (λ p. refl) refl refl served_and_left

-- A snapshot is asked for, given up, and looked at by the collector.
abbrev at_start : Safe.State
at_start = record { world = world; backlog = [] }

abbrev requested : World
requested = elim (send_api_request 5000 Call.snapshot Args.no_args world) [
  | ret p w ↦ w
  | _ ↦ world
]

abbrev abandoned : World
abandoned = elim (dispose 5000 requested) [ ret u w ↦ w | _ ↦ requested ]

abbrev looked_after : Safe.State
looked_after = record {
  world = record abandoned { orphaned_calls = record { items = []; closed = false } };
  backlog = 5000 ∷ [];
}

asked_and_abandoned : Safe.Reach (λ h. h) counting at_start looked_after
unfolding send_api_request dispose new_slot put take libraft.Queue.Deque.put gc_round next_orphan
    try_dispose_orphan
asked_and_abandoned =
    Safe.next {y = record { world = abandoned; backlog = [] }}
      (Safe.next {y = record { world = requested; backlog = [] }}
        (Safe.next {y = at_start} Safe.here
          (Safe.sends_api 5000 5000 Call.snapshot Args.no_args refl refl refl))
        (Safe.disposes 5000 ne_0 (λ e. ground arith) refl refl))
      (Safe.collects true false refl)

Reach-Collects_example :
    Tracked (5000 ∷ []) looked_after.world
    × Collects (gc_round (5000 ∷ []) true true looked_after.world)
Reach-Collects_example =
    Reach-Collects (λ h. h) counting (λ st path p w. record { client = λ q. refl; items = refl })
      {x = at_start} {y = looked_after} true true refl refl asked_and_abandoned

-- The call at 5000 is waited for by one thread, and answered with an error.
abbrev woken_waiter : Waiting.System
woken_waiter = record {
  slot = elim (reply_err sent RaftError.leader 3) [ none ↦ sent | some s ↦ s ];
  pc =
      update (update (update (λ _. Waiting.Pc.outside) 4 Waiting.Pc.entering) 4 Waiting.Pc.asleep) 4
        Waiting.Pc.woken;
}

waited_and_answered : Waiting.Reach (Waiting.start sent) woken_waiter
unfolding reply_err
waited_and_answered =
    Waiting.next
      (Waiting.next (Waiting.next Waiting.here (Waiting.waits 4 refl refl))
        (Waiting.sleeps 4 (inl refl) refl refl))
      (Waiting.answers RaftError.leader 3 refl (Waiting.one 4 refl refl))

lone_waiter_awake_example : woken_waiter.pc 4 ≢ Waiting.Pc.asleep
unfolding reply_err
lone_waiter_awake_example =
    lone_waiter_awake sent {t = woken_waiter} 4 refl waited_and_answered (λ j ne. ground arith) refl

two_waiters_example :
    (t : Waiting.System) × (s' : Slot) × Waiting.Reach (Waiting.start sent) t
    × (reply_with (Reply.by_value 8) sent 3 ≡ some s')
    × (t.slot ≡ Waiting.observed s' 5)
    × (is_terminal t.slot.state ≡ true)
    × (t.pc 0 ≡ Waiting.Pc.asleep)
    × (t.pc 1 ≡ Waiting.Pc.returned)
    × ((u : Waiting.System)
        → Waiting.Step t u
        → (u.pc 0 ≡ Waiting.Pc.asleep) ⊎ (u ≡ Waiting.moved t 0 Waiting.Pc.woken))
two_waiters_example = two_waiters sent (Reply.by_value 8) 3 5 refl
