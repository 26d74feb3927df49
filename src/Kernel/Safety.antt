-- ===== src/Kernel/Safety.antt =====
-- What a transition table must say for the gates and the replans of src/kernel/coordinator.py to
-- hold: checks of a whole snapshot. Completing needs the completion gate or a `verify.passed`, and
-- only a guarded row replans.
pub mod Verdicts
pub mod Gated
pub mod Completion
pub mod Replans
use absolute_zero.Prelude.{
  ℕ, suc, ◌==◌, String, ◌≡◌, Bool, true, false, Option, none, some, List, [], ◌∷◌, ◌++◌, ◌&&◌, ◌||◌,
  not, elem, all_of, str_eq, ◌==◌, if◌then◌else◌,
}
use absolute_zero.Prelude.Dict
use absolute_zero.Value.{Value, str, Fields, end, find}
use absolute_zero.Kernel.Config.{ConfigView, Row, Rows, rows}
use absolute_zero.Kernel.Ledger.{non_terminal_states, terminal_states}

abbrev pub lifecycle_states : List String
lifecycle_states =
    "created" ∷ "initialized" ∷ "scheduled" ∷ "executing" ∷ "verifying" ∷ "completed" ∷ "failed"
    ∷ "cancelled" ∷ []

-- The events that reach a known request.
abbrev pub work_events : List String
work_events =
    "request.cancelled" ∷ "plan.created" ∷ "plan.rejected" ∷ "task.completed" ∷ "task.failed"
    ∷ "verify.passed" ∷ "verify.failed" ∷ []

-- All the inbound events of the kernel.
abbrev pub kernel_events : List String
kernel_events =
    "request.received" ∷ "config.changed" ∷ "session.wake" ∷ "session.sleep" ∷ work_events

abbrev pub is_guarded : String → Row → Bool
is_guarded name row = elim row.when [ none ↦ false | some w ↦ str_eq w name ]

-- `record_verdict` keeps a verdict true only on `verify.passed`.
abbrev pub records_pass : String → List String → Bool
records_pass event actions = elem "record_verdict" actions && str_eq event "verify.passed"

-- How often a row counts a replan.
abbrev pub replans : List String → ℕ
replans [] = 0
replans (a ∷ actions) =
    let rest = replans actions in if str_eq "increment_replan" a then suc rest else rest

-- A row that replans at most once, and only under the guard that some are left.
unfoldable pub row_is_counted : Row → Bool
row_is_counted row =
    replans row.actions == 0 || replans row.actions == 1 && is_guarded "replans_remaining" row

-- A row whose guard `_pick_row` evaluates.
unfoldable pub row_is_gated : String → String → Row → Bool
row_is_gated state event row =
    elem row.next lifecycle_states
    && (not (str_eq row.next "completed")
        || records_pass event row.actions
        || not (elem "record_verdict" row.actions)
          && (is_guarded "gate:completion" row || str_eq state "completed"))

-- A row of admission or of routing, whose `when` is not evaluated.
unfoldable pub row_is_birth : Row → Bool
row_is_birth row =
    elem row.next lifecycle_states
    && not (str_eq row.next "completed")
    && elim row.chain [ none ↦ true | some next ↦ elem next ("" ∷ "__routing__" ∷ []) ]

abbrev pub rows_pass : (Row → Bool) → Option Rows → Bool
rows_pass p none = true
rows_pass p (some rs) = p rs.first && all_of p rs.others

-- The completion gate reads the verdict that `record_verdict` writes.
abbrev pub completion_gate : Option Fields → Bool
completion_gate none = true
completion_gate (some gate) = elim (find "verdict" gate) [
  | some (str v) ↦ str_eq v "verification"
  | some v ↦ false
  | none ↦ true
]

-- The parts of the check.
unfoldable pub events_are_known : ConfigView → Bool
events_are_known cfg = all_of (λ event. elem event kernel_events) cfg.inbound_events

unfoldable pub work_is_gated : ConfigView → Bool
unfolding row_is_gated rows Dict.get
work_is_gated cfg =
    all_of
      (λ state.
        all_of (λ event. rows_pass (row_is_gated state event) (rows cfg state event)) work_events)
      lifecycle_states

unfoldable pub birth_is_gated : ConfigView → Bool
unfolding row_is_birth rows Dict.get
birth_is_gated cfg = rows_pass row_is_birth (rows cfg "created" "request.received")

unfoldable pub routing_is_gated : ConfigView → Bool
unfolding row_is_birth rows Dict.get
routing_is_gated cfg =
    all_of (λ state. rows_pass row_is_birth (rows cfg state "__routing__")) lifecycle_states

unfoldable pub completion_is_gated : ConfigView → Bool
unfolding find Dict.get
completion_is_gated cfg = completion_gate (Dict.get "completion" cfg.gates)

-- The check of the replans: rows of admission and of routing do not replan.
unfoldable pub work_is_counted : ConfigView → Bool
unfolding row_is_counted rows Dict.get
work_is_counted cfg =
    all_of (λ state. all_of (λ event. rows_pass row_is_counted (rows cfg state event)) work_events)
      lifecycle_states

abbrev pub no_replan : Row → Bool
no_replan row = replans row.actions == 0

unfoldable pub birth_is_counted : ConfigView → Bool
unfolding rows Dict.get
birth_is_counted cfg = rows_pass no_replan (rows cfg "created" "request.received")

unfoldable pub routing_is_counted : ConfigView → Bool
unfolding rows Dict.get
routing_is_counted cfg =
    all_of (λ state. rows_pass no_replan (rows cfg state "__routing__")) lifecycle_states

unfoldable pub replans_are_counted : ConfigView → Bool
unfolding work_is_counted birth_is_counted routing_is_counted
replans_are_counted cfg = work_is_counted cfg && birth_is_counted cfg && routing_is_counted cfg

-- The check of a snapshot.
unfoldable pub is_gated : ConfigView → Bool
unfolding events_are_known work_is_gated birth_is_gated routing_is_gated completion_is_gated
is_gated cfg =
    events_are_known cfg
    && work_is_gated cfg
    && birth_is_gated cfg
    && routing_is_gated cfg
    && completion_is_gated cfg

-- The property as a type, for the steps that install snapshots.
abbrev pub IsGated : ConfigView → Type 0
IsGated cfg = is_gated cfg ≡ true
