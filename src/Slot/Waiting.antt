-- ===== src/Slot/Waiting.antt =====
-- Threads that wait for one call while another answers it: BaseSlot::wait and BaseSlot::reply of
-- raft_shm.cc, cut where the mutex `owned` is released. The answering thread holds it.
use libraft.Prelude.{ℕ, ◌≡◌, ◌≢◌, true, false, ◌⊎◌, some, update}
use libraft.Text.{codes}
use libraft.Errors.{RaftError}
use libraft.Timings.{record_at}
use libraft.Slot.{Slot, ClientState, is_terminal, reply_err, reply_val}

-- Where a thread stands: outside, before the mutex, in the wait for `ret_cond`, woken from it and
-- before the mutex, or back from `wait`.
pub data Pc : Type 0 where
  outside entering asleep woken returned : Pc

pub record System : Type 0 where
  pub slot : Slot
  pub pc : ℕ → Pc

abbrev pub start : Slot → System
start s = record { slot = s; pc = λ _. Pc.outside }

-- The rest of `wait` once the predicate holds.
abbrev pub observed : Slot → ℕ → Slot
observed s now = record s {
  client_state = ClientState.observed;
  timings = record_at s.timings (codes "result received") now;
}

abbrev pub moved : System → ℕ → Pc → System
moved s i p = record s { pc = update s.pc i p }

-- `notify_one`
pub data Notifies (pc pc' : ℕ → Pc) : Type 0 where
  one : (i : ℕ) → pc i ≡ Pc.asleep → pc' ≡ update pc i Pc.woken → Notifies pc pc'
  nobody : ((i : ℕ) → pc i ≢ Pc.asleep) → pc' ≡ pc → Notifies pc pc'

pub data Step (s t : System) : Type 0 where
  waits : (i : ℕ) → s.pc i ≡ Pc.outside → t ≡ moved s i Pc.entering → Step s t
  sleeps :
      (i : ℕ)
      → (s.pc i ≡ Pc.entering) ⊎ (s.pc i ≡ Pc.woken)
      → is_terminal s.slot.state ≡ false
      → t ≡ moved s i Pc.asleep
      → Step s t
  passes :
      (i now : ℕ)
      → (s.pc i ≡ Pc.entering) ⊎ (s.pc i ≡ Pc.woken)
      → is_terminal s.slot.state ≡ true
      → t ≡ record { slot = observed s.slot now; pc = update s.pc i Pc.returned }
      → Step s t
  answers :
      (err : RaftError) (now : ℕ)
      → reply_err s.slot err now ≡ some t.slot
      → Notifies s.pc t.pc
      → Step s t
  answers_val :
      (retval now : ℕ) → reply_val s.slot retval now ≡ some t.slot → Notifies s.pc t.pc → Step s t
  spurious : (i : ℕ) → s.pc i ≡ Pc.asleep → t ≡ moved s i Pc.woken → Step s t

pub data Reach (s : System) : System → Type 0 where
  here : Reach s s
  next : {t u : System} → Reach s t → Step t u → Reach s u
