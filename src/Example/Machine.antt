-- ===== src/Example/Machine.antt =====
-- The state machine of raft_client.c: it counts the letters of its commands.
use libraft.Prelude.{
  ℕ, zero, suc, ◌+◌, ◌/◌, ◌%◌, ◌^◌, Bool, not, ◌&&◌, ◌||◌, ◌==◌, ltb, leb, List, [], ◌∷◌, ◌++◌,
  Option, none, some, update, if◌then◌else◌,
}
use libraft.Errors.{RaftLogType}
use libraft.Config.Size.{head_is_digit, skip_space, sign, strtoul}
use libraft.World.{ret, blocked, raised, aborted, fault, M, pure, ◌>>=◌, given}
use libraft.Snapshots.{Worker, raft_fsm_take_snapshot}
use libraft.Fsm.{RaftFsm}

-- `isalpha` in the C locale.
abbrev pub is_alpha : ℕ → Bool
is_alpha c = leb b'A' c && leb c b'Z' || leb b'a' c && leb c b'z'

-- `letter_count`; the 32-bit integers that `malloc` has given memory for, by address; and the
-- library's snapshot queue and thread, which `FSMBeginSnapshot` uses.
pub record Machine : Type 0 where
  pub letter_count : ℕ
  pub cells : ℕ → Option ℕ
  pub worker : Worker

-- `++letter_count`
abbrev pub inc32 : ℕ → ℕ
inc32 n = (n + 1) % 2 ^ 32

-- The loop, with `endp - buf` bytes left and the count so far.
unfoldable pub count_letters : (ℕ → ℕ) → ℕ → ℕ → ℕ → ℕ
count_letters memory buf zero count = count
count_letters memory buf (suc left) count =
    let c = memory buf in
    let rest = count_letters memory (buf + 1) left (if is_alpha c then inc32 count else count) in
    if not (is_alpha c) && c == 0 then count else rest

-- `fprintf(sink, "%u", n)`; ten digits are enough for 32 bits.
unfoldable pub digits : ℕ → ℕ → List ℕ
digits zero n = (b'0' + n % 10) ∷ []
digits (suc more) n =
    let before = digits more (n / 10) in
    if ltb n 10 then (b'0' + n) ∷ [] else before ++ (b'0' + n % 10) ∷ []

abbrev pub newline : ℕ
newline = 10

unfoldable pub print_line : ℕ → List ℕ
print_line n = digits 9 n ++ newline ∷ []

-- `fscanf(src, "%u", &val)`; `none` if nothing was converted.
unfoldable pub scan_unsigned : List ℕ → Option ℕ
scan_unsigned text =
    if head_is_digit (sign (skip_space text)).1 then some ((strtoul text).0 % 2 ^ 32) else none

-- A file opened for reading: its text, and whether it can be closed without an error.
pub record Source : Type 0 where
  pub text : List ℕ
  pub closes : Bool

abbrev restored : Machine → Option ℕ → Machine × ℕ
restored m (some val) = (record m { letter_count = val }, 0)
restored m none = (m, 1)

-- `fopen` gave the argument; the result is what is returned.
unfoldable pub fsm_restore : Option Source → Machine → Machine × ℕ
unfolding scan_unsigned
fsm_restore none m = (m, 1)
fsm_restore (some src) m = if src.closes then restored m (scan_unsigned src.text) else (m, 1)

-- What `write_snapshot` returns and the text that it adds to its sink; `prints` says whether
-- `fprintf` succeeds. `none` is the use of memory that is not there.
unfoldable pub write_snapshot : Bool → ℕ → Machine → Option (Machine × ℕ × List ℕ)
unfolding print_line
write_snapshot prints handle m = elim (m.cells handle) [
  | none ↦ none
  | some state ↦
      let freed = record m { cells = update m.cells handle none } in
      if prints then some (freed, 0, print_line state) else some (freed, 1, [])
]

-- `memory` is what the command buffers hold, `malloc` the address of memory for an integer or 0,
-- `write` the address of `write_snapshot`, and `fopen` the file behind a path.
module _ (memory : ℕ → ℕ) (malloc : Machine → ℕ) (write : ℕ) (fopen : List ℕ → Option Source) where
  -- The count stored in new memory; `none` is a null pointer.
  abbrev new_cell : Machine → Option (Machine × ℕ)
  new_cell m =
      let p = malloc m in
      if p == 0 then none else some (record m { cells = update m.cells p (some m.letter_count) }, p)

  -- `none` is a failed assertion.
  unfoldable pub update_count : ℕ → ℕ → Machine → Option (Machine × ℕ)
  unfolding count_letters
  update_count buf len m =
      new_cell (record m { letter_count = count_letters memory buf len m.letter_count })

  unfoldable pub fsm_apply : ℕ → ℕ → RaftLogType → ℕ → ℕ → Machine → Option (Machine × ℕ)
  unfolding update_count
  fsm_apply index term log_type cmd len m = update_count cmd len m

  abbrev take_with : ℕ → Machine × ℕ → M Machine
  take_with s (m, state) = do
    worker ← raft_fsm_take_snapshot s state write m.worker
    pure (record m { worker = worker })

  -- `exit(1)` ends the process as a failed assertion does.
  unfoldable pub fsm_begin_snapshot : ℕ → Machine → M Machine
  fsm_begin_snapshot s m = given (new_cell m) (take_with s) (λ w. aborted w)

  -- The callbacks, as long as memory is given and the snapshot queue is open. Where `fsm_apply` and
  -- `fsm_begin_snapshot` end the process or throw, there is no answer to speak of, and the state stands
  -- for the last one before.
  abbrev pub fsm_def : RaftFsm Machine
  fsm_def = record {
    apply = λ m index term log_type cmd len. elim (fsm_apply index term log_type cmd len m) [
      | none ↦ (m, 0)
      | some r ↦ r
    ];
    begin_snapshot = λ m path s w. elim (fsm_begin_snapshot s m w) [
      | ret m' w' ↦ (m', w')
      | blocked w' ↦ (m, w')
      | raised w' ↦ (m, w')
      | aborted w' ↦ (m, w')
      | fault w' ↦ (m, w')
    ];
    restore = λ m path. fsm_restore (fopen path) m;
  }
