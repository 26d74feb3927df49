-- ===== src/Rsm/Reducers/Blocks.antt =====
-- src/rsm/reducers.py: the helpers of the reducers.
use absolute_zero.Prelude.{
  String, Option, some, List, [], ◌∷◌, ◌++◌, length, or_else, if◌then◌else◌,
}
use absolute_zero.Value.{Value, str, Fields, end, is_int, int_of, is_hashable, ℤ, pos}
use absolute_zero.Rsm.Record.{
  RequestRecord, Work, FailureEntry, Update, to_plan, to_failure, set, look, assign,
}
use absolute_zero.Rsm.Reducers.Schema.{Event, Result, ok, crashed, ◌+ℤ◌}

-- `_failure_entry(family, event, ref, record)`
abbrev pub failure_entry : String → Event → Value → RequestRecord → FailureEntry
failure_entry family e ref r = record {
  source_event_id = e.event_id;
  family = family;
  ref = ref;
  seq = length r.failure;
}

-- `failure=record.failure + (entry,)`
abbrev pub failed_with : String → Event → Value → RequestRecord → Update
failed_with family e ref r = to_failure (r.failure ++ failure_entry family e ref r ∷ [])

-- `entry.update(fields)`
abbrev pub update_entry : List (String × Value) → Fields → Fields
update_entry [] d = d
update_entry ((k, v) ∷ more) d = update_entry more (set k v d)

-- A key that is not hashable raises a TypeError.
abbrev pub keyed : {A : Type 0} → Value → A → Result A
keyed key a = if is_hashable key then ok a else crashed

-- `_task_state(work, task_id, state)`
unfoldable pub task_state : Work → Value → String → Result Work
unfolding look assign set
task_state w id state = keyed id (record w {
  tasks = assign id (set "state" (str state) (or_else (look id w.tasks) end)) w.tasks;
})

-- `_exec_state(work, exec_id, **fields)`
unfoldable pub exec_state : Work → Value → List (String × Value) → Result Work
unfolding look assign set
exec_state w id fields =
    keyed id
      (record w { execs = assign id (update_entry fields (or_else (look id w.execs) end)) w.execs })

-- `amount or 0 + v`; what is not a number raises a TypeError.
unfoldable pub plus : Option ℤ → Value → Result (Option ℤ)
plus amount v = if is_int v then ok (some (or_else amount (pos 0) +ℤ int_of v)) else crashed

-- The plan with some of its fields set.
abbrev pub plan_with : RequestRecord → List (String × Value) → Update
plan_with r fields = to_plan (update_entry fields r.plan)

abbrev pub Reducer : Type 0
Reducer = RequestRecord → Event → Result RequestRecord
