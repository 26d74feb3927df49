-- ===== src/Execution.antt =====
-- src/execution/engine.py: the engine that runs commands. The runner of an attempt, the storage
-- and the bus are parameters; the JSON and the SHA-256 of a record are the storage's.
pub mod Runs
pub mod Script
pub mod Once
pub mod Tests
use absolute_zero.Prelude.{
  ℕ, zero, suc, ◌+◌, ◌-◌, String, Bool, true, false, not, Option, none, some, List, [], ◌∷◌, ◌++◌,
  ◌&&◌, ◌||◌, ◌>>=◌, or_else, str_eq, if◌then◌else◌,
}
use absolute_zero.Prelude.Dict
use absolute_zero.Prelude.Dict.{Dict}
use absolute_zero.Value.{
  Value, null, bool, int, str, list, dict, Items, nil, cons, Fields, find, is_list, items_of,
  value_or_null, eq_ℤ, ℤ, pos, negsuc, is_negative,
}

pub data State : Type 0 where
  pending : State
  running : State
  completed : State
  failed : State
  timeout : State
  cancelled : State

-- `state in TERMINAL`
abbrev pub is_terminal : State → Bool
is_terminal pending = false
is_terminal running = false
is_terminal _ = true

-- The refusals of `submit`, with the first condition that fails.
pub data BadSpec : Type 0 where
  spec_not_mapping : BadSpec
  bad_command : BadSpec
  bad_timeout : BadSpec
  bad_max_retries : BadSpec
  caps_unenforceable : BadSpec

-- What an attempt of the runner ends with: a timeout, or an exit code.
pub data Attempt : Type 0 where
  timed_out : Attempt
  exited : ℤ → Attempt

pub record Result : Type 0 where
  pub state : State
  pub exit_code : Option ℤ

-- A spec that `submit` has accepted; its timeout is the runner's.
pub record Spec : Type 0 where
  pub fields : Fields
  pub max_retries : ℕ

pub record Handle : Type 0 where
  pub number : ℕ
  pub spec : Spec
  pub state : State
  pub attempts : ℕ
  pub result : Option Result

-- A record of the journal of an execution.
pub data Rec : Type 0 where
  attempt_record : ℕ → Rec
  terminal_record : Result → ℕ → Rec
  cancelled_record : Rec

-- An event, with the number of the attempt.
pub data Event : Type 0 where
  started : ℕ → Event
  ended : State → ℕ → Event

-- What the engine works on: the runner's, the storage's and the bus's side. `none` is an exception
-- that leaves the runner: it catches a timeout and an `OSError`, and no other. `false` is an exception
-- of the storage or of the bus; without a storage or a bus, nothing happens.
pub record Outside : Type 1 where
  pub World : Type 0
  pub run_command : Spec → World → Option Attempt × World
  pub write_record : ℕ → Rec → World → World × Bool
  pub publish : ℕ → Event → World → World × Bool

-- Numbers are whole: `isinstance(v, (int, float)) and not isinstance(v, bool)`.
abbrev pub number_of : Value → Option ℤ
number_of (int n) = some n
number_of _ = none

abbrev pub all_texts : Items → Bool
all_texts nil = true
all_texts (cons (str s) more) = all_texts more
all_texts (cons v more) = false

abbrev pub is_empty : Items → Bool
is_empty nil = true
is_empty _ = false

abbrev pub is_command : Value → Bool
is_command v = is_list v && not (is_empty (items_of v)) && all_texts (items_of v)

abbrev pub is_positive : Option ℤ → Bool
is_positive none = false
is_positive (some (pos zero)) = false
is_positive (some (pos (suc n))) = true
is_positive (some (negsuc n)) = false

-- `spec.get("max_retries", 0)`, if it is a number that is not negative
abbrev pub retries_of : Option Value → Option ℕ
retries_of none = some 0
retries_of (some (int (pos n))) = some n
retries_of _ = none

-- `bool(v)`
abbrev pub is_truthy : Value → Bool
is_truthy null = false
is_truthy (bool b) = b
is_truthy (int n) = not (eq_ℤ n (pos 0))
is_truthy (str s) = not (str_eq s "")
is_truthy (list xs) = not (is_empty xs)
is_truthy (dict Fields.end) = false
is_truthy (dict d) = true

pub data Checked : Type 0 where
  refused : BadSpec → Checked
  accepted : Spec → Checked

-- The checks of `submit`.
unfoldable pub check : Value → Checked
unfolding find
check (dict d) =
    if not (is_command (value_or_null (find "command" d)))
    then refused bad_command
    else if not (is_positive (number_of (value_or_null (find "timeout_seconds" d))))
    then refused bad_timeout
    else elim (retries_of (find "max_retries" d)) [
      | none ↦ refused bad_max_retries
      | some n ↦
          if is_truthy (value_or_null (find "resource_caps" d))
          then refused caps_unenforceable
          else accepted (record { fields = d; max_retries = n })
    ]
check _ = refused spec_not_mapping

-- The engine: its handles by number, and the next number. `"x-%06d" % n` is the number `n`.
pub record Engine : Type 0 where
  pub handles : List Handle
  pub next_id : ℕ

abbrev pub new_engine : Engine
new_engine = record { handles = []; next_id = 1 }

abbrev new_handle : ℕ → Spec → Handle
new_handle n s = record { number = n; spec = s; state = pending; attempts = 0; result = none }

pub data Submitted : Type 0 where
  bad : BadSpec → Submitted
  submitted : Handle → Engine → Submitted

unfoldable pub submit : Value → Engine → Submitted
unfolding check
submit spec e = elim (check spec) [
  | refused reason ↦ bad reason
  | accepted s ↦
      let h = new_handle e.next_id s in
      submitted h (record { handles = e.handles ++ h ∷ []; next_id = suc e.next_id })
]

-- `is pending`
abbrev pub is_pending : State → Bool
is_pending pending = true
is_pending _ = false

-- How a call on a handle ends, with the handle as it is left.
pub data Outcome : Type 0 where
  done : Result → Outcome
  illegal : State → Outcome
  raised : Outcome

module _ (o : Outside) where
  open o use {World, run_command, write_record, publish}

  abbrev pub Answer : Type 0
  Answer = Outcome × Handle × World

  unfoldable pub cancel : Handle → World → Answer
  cancel h w =
      if not (is_pending h.state)
      then (illegal h.state, h, w)
      else let result : Result = record { state = cancelled; exit_code = none } in
        let h' = record h { state = cancelled; result = some result } in
        let (w', ok) = write_record h.number cancelled_record w in
        (if ok then done result else raised, h', w')

  -- What an attempt leads to: an exception of the storage, of the bus or of the runner, a result that
  -- stops the loop, or a failure.
  pub data Tried : Type 0 where
    broken : World → Tried
    stopped : Result → World → Tried
    retryable : Result → World → Tried

  unfoldable pub judge : Option Attempt × World → Tried
  judge (none, w) = broken w
  judge (some timed_out, w) = stopped (record { state = timeout; exit_code = none }) w
  judge (some (exited code), w) =
      if eq_ℤ code (pos 0)
      then stopped (record { state = completed; exit_code = some code }) w
      else retryable (record { state = failed; exit_code = some code }) w

  -- The record and the event of an attempt, and the attempt.
  unfoldable pub try_once : Handle → World → Tried
  unfolding judge
  try_once h w =
      let (w1, written) = write_record h.number (attempt_record h.attempts) w in
      let (w2, told) = publish h.number (started h.attempts) w1 in
      if not written
      then broken w1
      else if not told
      then broken w2
      else judge (run_command h.spec w2)

  abbrev pub at_attempt : ℕ → Handle → Handle
  at_attempt n h = record h { attempts = n }

  -- The loop of `run` from the attempt `n`, with `left` more after it. Without a result, the
  -- storage, the bus or the runner has raised.
  unfoldable pub try_all : ℕ → ℕ → Handle → World → Option Result × Handle × World
  unfolding try_once
  try_all zero n h w = elim (try_once (at_attempt n h) w) [
    | broken w' ↦ (none, at_attempt n h, w')
    | stopped r w' ↦ (some r, at_attempt n h, w')
    | retryable r w' ↦ (some r, at_attempt n h, w')
  ]
  try_all (suc left) n h w = elim (try_once (at_attempt n h) w) [
    | broken w' ↦ (none, at_attempt n h, w')
    | stopped r w' ↦ (some r, at_attempt n h, w')
    | retryable r w' ↦ try_all left (suc n) (at_attempt n h) w'
  ]

  -- The end of `run`: the record, then the event.
  unfoldable pub conclude : Result → Handle → World → World × Bool
  conclude r h w =
      let (w1, written) = write_record h.number (terminal_record r h.attempts) w in
      if written then publish h.number (ended r.state h.attempts) w1 else (w1, false)

  unfoldable pub finish : Option Result × Handle × World → Answer
  unfolding conclude
  finish (none, h, w) = (raised, h, w)
  finish (some r, h, w) =
      let h' = record h { state = r.state; result = some r } in
      let (w', ok) = conclude r h' w in (if ok then done r else raised, h', w')

  unfoldable pub run : Handle → World → Answer
  unfolding try_all finish
  run h w =
      if not (is_pending h.state)
      then (illegal h.state, h, w)
      else finish (try_all h.spec.max_retries 1 (record h { state = running }) w)
