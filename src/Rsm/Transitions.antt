-- ===== src/Rsm/Transitions.antt =====
-- src/rsm/transitions.py: the table of materialization states and event families.
use absolute_zero.Prelude.{
  String, Bool, true, false, not, List, [], ◌∷◌, ◌++◌, ◌&&◌, ◌||◌, elem, str_eq, if◌then◌else◌,
}

pub data State : Type 0 where
  absent : State
  active : State
  terminal : State
  persisted : State
  retained : State
  evicted : State

-- `state in _TERMINAL_LIKE`
abbrev pub is_terminal_like : State → Bool
is_terminal_like terminal = true
is_terminal_like persisted = true
is_terminal_like retained = true
is_terminal_like _ = false

abbrev pub birth_family : String
birth_family = "request.received"

abbrev pub terminal_families : List String
terminal_families =
    "request.completed" ∷ "request.failed" ∷ "request.rejected" ∷ "request.cancelled" ∷ []

abbrev pub late_tolerant_families : List String
late_tolerant_families = "cost.recorded" ∷ []

abbrev pub contributing_families : List String
contributing_families =
    "intent.classified" ∷ "plan.created" ∷ "plan.revised" ∷ "plan.validated" ∷ "plan.rejected"
    ∷ "task.scheduled" ∷ "task.started" ∷ "task.preempted" ∷ "task.completed" ∷ "task.failed"
    ∷ "exec.started" ∷ "exec.completed" ∷ "exec.timeout" ∷ "exec.failed" ∷ "context.assembled"
    ∷ "verify.requested" ∷ "verify.passed" ∷ "verify.failed" ∷ "storage.committed"
    ∷ "storage.rejected" ∷ "fault.recorded" ∷ []

unfoldable pub registered_families : List String
registered_families =
    birth_family ∷ contributing_families ++ terminal_families ++ late_tolerant_families

pub data Action : Type 0 where
  create : Action
  apply : Action
  apply_terminal : Action
  fault : Action
  drop : Action
  unregistered : Action

pub record Row : Type 0 where
  pub action : Action
  pub next_state : State

abbrev pub row : Action → State → Row
row a s = record { action = a; next_state = s }

-- The row of a registered family, by the state.
unfoldable pub row_of : State → String → Bool → Row
row_of evicted family malformed = row fault evicted
row_of absent family malformed =
    if not (str_eq family birth_family)
    then row fault absent
    else if malformed
    then row fault absent
    else row create active
row_of active family malformed =
    if str_eq family birth_family
    then row fault active
    else if malformed
    then row fault active
    else if elem family terminal_families
    then row apply_terminal terminal
    else row apply active
row_of late family malformed =
    if str_eq family birth_family
    then row fault late
    else if elem family late_tolerant_families
    then (if malformed then row fault late else row apply late)
    else row fault late

-- `lookup(state, family, duplicate, malformed)`; a state that is none of the six cannot be named.
unfoldable pub lookup : State → String → Bool → Bool → Row
unfolding row_of registered_families
lookup state family duplicate malformed =
    if duplicate && (is_active state || is_terminal_like state)
    then row drop state
    else if not (elem family registered_families)
    then row unregistered state
    else row_of state family malformed
  where
    is_active : State → Bool
    is_active active = true
    is_active _ = false
