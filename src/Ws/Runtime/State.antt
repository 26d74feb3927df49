-- ===== src/Ws/Runtime/State.antt =====
-- src/ws/runtime.py: the state of a run and its journal, and `replay`. The bus and the binder with
-- the engine are parameters; the compiled artifact is the argument `Workflow`.
use Prim.Native.String.{compare}
use Prim.Native.Nat.{Ordering}
use absolute_zero.Prelude.{
  String, Bool, true, false, Option, none, some, List, [], ◌∷◌, ◌++◌, map, foldl, elem, str_eq,
  if◌then◌else◌,
}
use absolute_zero.Prelude.Dict
use absolute_zero.Prelude.Dict.{Dict}
use absolute_zero.Value.{Value}

pub data UnitState : Type 0 where
  pending : UnitState
  executing : UnitState
  succeeded : UnitState
  failed : UnitState
  not_executed : UnitState

pub data Status : Type 0 where
  active : Status
  completed : Status
  stalled : Status
  cancelled : Status

pub record UnitSpec : Type 0 where
  pub priority_band : String
  pub group_id : Option String

-- The artifact of the compiler, as far as the run reads it.
pub record Workflow : Type 0 where
  pub workflow_id : String
  pub units : Dict UnitSpec
  pub edges : List (String × String)
  pub canonical_order : List String
  pub groups : Dict (List String)
  pub content_hash : String

-- A record of the journal, by its `kind`.
pub data Rec : Type 0 where
  activated : Rec
  run_cancelled : Rec
  selected : String → String → Rec
  dispatched : String → Rec
  exec_result : String → Bool → Rec
  verdict : String → Bool → Rec
  terminal : String → UnitState → Rec
  workflow_terminal : Status → Rec

-- What `replay` rebuilds.
pub record Progress : Type 0 where
  pub status : Option Status
  pub unit_state : Dict UnitState
  pub exec_ok : List String
  pub selection : Dict String

-- A run; `journal` is `none` without storage.
pub record Run (W : Type 0) : Type 0 where
  pub progress : Progress
  pub open progress use *
  pub journal : Option (List Rec)
  pub world : W

-- The bus (`false` raises), and the binder with the engine: whether the execution completed, or
-- `none` if it raises.
pub record Outside : Type 1 where
  pub World : Type 0
  pub publish : String → String → Value → World → World × Bool
  pub bound : Bool
  pub execute : UnitSpec → World → World × Option Bool

-- How a call ends; the state is what was written up to then.
pub data Outcome : Type 0 where
  done : Outcome
  raised : String → Outcome

abbrev pub state_name : UnitState → String
state_name pending = "pending"
state_name executing = "executing"
state_name succeeded = "succeeded"
state_name failed = "failed"
state_name not_executed = "not-executed"

-- `str(self.status)`
abbrev pub status_name : Option Status → String
status_name none = "None"
status_name (some active) = "active"
status_name (some completed) = "completed"
status_name (some stalled) = "failed"
status_name (some cancelled) = "cancelled"

abbrev pub eq_state : Option UnitState → UnitState → Bool
eq_state (some pending) pending = true
eq_state (some executing) executing = true
eq_state (some succeeded) succeeded = true
eq_state (some failed) failed = true
eq_state (some not_executed) not_executed = true
eq_state _ _ = false

-- `state in TERMINAL`
abbrev pub is_terminal : Option UnitState → Bool
is_terminal (some succeeded) = true
is_terminal (some failed) = true
is_terminal (some not_executed) = true
is_terminal _ = false

abbrev pub is_active : Option Status → Bool
is_active (some active) = true
is_active _ = false

-- `set.add` and `set.discard`
unfoldable pub add : String → List String → List String
add u us = if elem u us then us else us ++ u ∷ []

unfoldable pub discard : String → List String → List String
discard u [] = []
discard u (v ∷ us) = let rest = discard u us in if str_eq u v then rest else v ∷ rest

-- `sorted` of texts.
unfoldable pub insert : String → List String → List String
insert a [] = a ∷ []
insert a (b ∷ bs) =
    let rest = insert a bs in elim (compare a b) [ Ordering.gt ↦ b ∷ rest | _ ↦ a ∷ b ∷ bs ]

unfoldable pub sorted : List String → List String
unfolding insert
sorted [] = []
sorted (a ∷ as') = insert a (sorted as')

-- `predecessors(unit_id)`, in the order of the edges; only whether all of them succeeded is read.
unfoldable pub predecessors : String → List (String × String) → List String
predecessors u [] = []
predecessors u ((p, c) ∷ es) = let rest = predecessors u es in if str_eq c u then p ∷ rest else rest

unfoldable pub fresh : Workflow → Progress
fresh wf = record {
  status = none;
  unit_state = map (λ e. (e.0, pending)) wf.units;
  exec_ok = [];
  selection = [];
}

-- One round of the loop of `replay`.
unfoldable pub replay_record : Progress → Rec → Progress
unfolding Dict.put add discard
replay_record p activated = record p { status = some active }
replay_record p run_cancelled = record p { status = some cancelled }
replay_record p (selected g u) = record p { selection = Dict.put g u p.selection }
replay_record p (dispatched u) = record p { unit_state = Dict.put u executing p.unit_state }
replay_record p (exec_result u ok) = if ok then record p { exec_ok = add u p.exec_ok } else p
replay_record p (verdict u passed) = record p { exec_ok = discard u p.exec_ok }
replay_record p (terminal u outcome) = record p { unit_state = Dict.put u outcome p.unit_state }
replay_record p (workflow_terminal s) = record p { status = some s }

-- `WorkflowRun.replay(workflow, storage)`
unfoldable pub replay : Workflow → List Rec → Progress
unfolding fresh replay_record
replay wf records = foldl replay_record (fresh wf) records
