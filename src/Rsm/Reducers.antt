-- ===== src/Rsm/Reducers.antt =====
-- src/rsm/reducers.py: the reducers, and the registry of them by family.
mod Schema
mod Blocks
mod Tasks
unfoldable pub use Schema.*
unfoldable pub use Blocks.*
unfoldable pub use Tasks.*
use absolute_zero.Prelude.{
  ℕ, suc, String, Bool, true, false, not, Option, none, some, List, [], ◌∷◌, ◌++◌, length, or_else,
  if◌then◌else◌,
}
use absolute_zero.Prelude.Dict
use absolute_zero.Prelude.Dict.{Dict}
use absolute_zero.Value.{
  Value, null, str, Fields, end, field, obj, find, is_int, int_of, is_hashable, value_or_null, ℤ,
  pos,
}
use absolute_zero.Rsm.Record.{
  RequestRecord, Work, Budget, FailureEntry, Table, Update, to_lifecycle, to_plan, to_work,
  to_context, to_verification, to_budget, to_failure, evolve, set, look, assign,
}
use absolute_zero.Rsm.Transitions.{birth_family}

-- `birth_reducer(event)`
unfoldable pub birth_reducer : Event → Result Fields
unfolding validate item
birth_reducer e = validate birth_family e >>= (λ p.
    ok (obj (("declared_type", item "declared_type" p) ∷ ("origin", item "origin" p) ∷ [])))

unfoldable pub reduce_intent_classified : Reducer
unfolding validate item evolve set
reduce_intent_classified r e = validate "intent.classified" e >>= (λ p.
    ok (evolve r (plan_with r (("classification_ref", item "classification_ref" p) ∷ []) ∷ [])))

unfoldable pub reduce_plan_created : Reducer
unfolding validate item evolve set
reduce_plan_created r e = validate "plan.created" e >>= (λ p. ok (
    evolve r
      (plan_with r (("plan_id", item "plan_id" p) ∷ ("revision", item "revision" p) ∷ []) ∷ [])))

unfoldable pub reduce_plan_revised : Reducer
unfolding validate item evolve set
reduce_plan_revised r e = validate "plan.revised" e >>= (λ p. ok (
    evolve r
      (plan_with r (("plan_id", item "plan_id" p) ∷ ("revision", item "revision" p) ∷ []) ∷ [])))

unfoldable pub reduce_plan_validated : Reducer
unfolding validate item evolve set
reduce_plan_validated r e = validate "plan.validated" e >>= (λ p. ok (
    evolve r (
      plan_with r (("status", str "validated") ∷ ("verdict_ref", item "verdict_ref" p) ∷ []) ∷ [])))

unfoldable pub reduce_plan_rejected : Reducer
unfolding validate item evolve set
reduce_plan_rejected r e = validate "plan.rejected" e >>= (λ p. ok (
    evolve r (
      plan_with r (("status", str "rejected") ∷ ("verdict_ref", item "verdict_ref" p) ∷ [])
      ∷ failed_with "plan.rejected" e null r
      ∷ [])))

unfoldable pub reduce_context_assembled : Reducer
unfolding validate item evolve set task_state exec_state plus look assign
reduce_context_assembled r e = validate "context.assembled" e >>= (λ p.
    keyed (item "step" p)
      (evolve r (to_context (assign (item "step" p) (item "context_package_id" p) r.context) ∷ [])))

unfoldable pub reduce_verify_requested : Reducer
unfolding validate item evolve set task_state exec_state plus look assign
reduce_verify_requested r e = validate "verify.requested" e >>= (λ p. keyed (item "gate" p) (
    evolve r (
      to_verification
        (assign (item "gate" p) (obj (("state", str "requested") ∷ [])) r.verification)
      ∷ [])))

unfoldable pub reduce_verify_passed : Reducer
unfolding validate item evolve set task_state exec_state plus look assign
reduce_verify_passed r e = validate "verify.passed" e >>= (λ p. keyed (item "gate" p) (
    evolve r (
      to_verification (
        assign (item "gate" p)
          (obj (("state", str "passed") ∷ ("verdict_ref", item "verdict_ref" p) ∷ []))
          r.verification)
      ∷ [])))

unfoldable pub reduce_verify_failed : Reducer
unfolding validate item evolve set task_state exec_state plus look assign
reduce_verify_failed r e = validate "verify.failed" e >>= (λ p. keyed (item "gate" p) (
    evolve r (
      to_verification (
        assign (item "gate" p)
          (obj (("state", str "failed") ∷ ("verdict_ref", item "verdict_ref" p) ∷ []))
          r.verification)
      ∷ failed_with "verify.failed" e (item "gate" p) r
      ∷ [])))

unfoldable pub reduce_storage_committed : Reducer
unfolding validate item evolve set
reduce_storage_committed r e = validate "storage.committed" e >>= (λ p.
    ok (evolve r (to_work (record r.work { commit_ref = some (item "commit_ref" p) }) ∷ [])))

unfoldable pub reduce_storage_rejected : Reducer
unfolding validate item evolve set
reduce_storage_rejected r e = validate "storage.rejected" e >>= (λ p. ok (
    evolve r (
      to_work (record r.work { commit_ref = some null })
      ∷ failed_with "storage.rejected" e null r
      ∷ [])))

unfoldable pub reduce_cost_recorded : Reducer
unfolding validate item evolve set task_state exec_state plus look assign
reduce_cost_recorded r e = validate "cost.recorded" e >>= (λ p.
    plus r.budget.consumed (item "amount" p)
    >>= (λ sum. ok (evolve r (to_budget (record r.budget { consumed = sum }) ∷ []))))

unfoldable pub reduce_fault_recorded : Reducer
unfolding validate item evolve set
reduce_fault_recorded r e =
    validate "fault.recorded" e
    >>= (λ p. ok (evolve r (failed_with "fault.recorded" e (item "reason" p) r ∷ [])))

unfoldable pub reduce_request_completed : Reducer
unfolding validate item evolve set
reduce_request_completed r e =
    validate "request.completed" e
    >>= (λ p. ok (evolve r (to_lifecycle (obj (("state", str "completed") ∷ [])) ∷ [])))

unfoldable pub reduce_request_rejected : Reducer
unfolding validate item evolve set
reduce_request_rejected r e = validate "request.rejected" e >>= (λ p. ok (
    evolve r
      (to_lifecycle (obj (("state", str "rejected") ∷ ("reason", item "reason" p) ∷ [])) ∷ [])))

unfoldable pub reduce_request_cancelled : Reducer
unfolding validate item evolve set
reduce_request_cancelled r e =
    validate "request.cancelled" e
    >>= (λ p. ok (evolve r (to_lifecycle (obj (("state", str "cancelled") ∷ [])) ∷ [])))

unfoldable pub reduce_request_failed : Reducer
unfolding validate item evolve set
reduce_request_failed r e = validate "request.failed" e >>= (λ p. ok (
    evolve r (
      to_lifecycle (obj (("state", str "failed") ∷ ("reason", item "reason" p) ∷ []))
      ∷ failed_with "request.failed" e null r
      ∷ [])))

unfoldable pub registry : Dict Reducer
unfolding reduce_intent_classified reduce_plan_created reduce_plan_revised reduce_plan_validated
    reduce_plan_rejected reduce_task_scheduled reduce_task_started reduce_task_preempted
    reduce_task_completed reduce_task_failed reduce_exec_started reduce_exec_completed
    reduce_exec_timeout reduce_exec_failed reduce_context_assembled reduce_verify_requested
    reduce_verify_passed reduce_verify_failed reduce_storage_committed reduce_storage_rejected
    reduce_cost_recorded reduce_fault_recorded reduce_request_completed reduce_request_failed
    reduce_request_rejected reduce_request_cancelled
registry =
    ("intent.classified", reduce_intent_classified)
    ∷ ("plan.created", reduce_plan_created)
    ∷ ("plan.revised", reduce_plan_revised)
    ∷ ("plan.validated", reduce_plan_validated)
    ∷ ("plan.rejected", reduce_plan_rejected)
    ∷ ("task.scheduled", reduce_task_scheduled)
    ∷ ("task.started", reduce_task_started)
    ∷ ("task.preempted", reduce_task_preempted)
    ∷ ("task.completed", reduce_task_completed)
    ∷ ("task.failed", reduce_task_failed)
    ∷ ("exec.started", reduce_exec_started)
    ∷ ("exec.completed", reduce_exec_completed)
    ∷ ("exec.timeout", reduce_exec_timeout)
    ∷ ("exec.failed", reduce_exec_failed)
    ∷ ("context.assembled", reduce_context_assembled)
    ∷ ("verify.requested", reduce_verify_requested)
    ∷ ("verify.passed", reduce_verify_passed)
    ∷ ("verify.failed", reduce_verify_failed)
    ∷ ("storage.committed", reduce_storage_committed)
    ∷ ("storage.rejected", reduce_storage_rejected)
    ∷ ("cost.recorded", reduce_cost_recorded)
    ∷ ("fault.recorded", reduce_fault_recorded)
    ∷ ("request.completed", reduce_request_completed)
    ∷ ("request.failed", reduce_request_failed)
    ∷ ("request.rejected", reduce_request_rejected)
    ∷ ("request.cancelled", reduce_request_cancelled)
    ∷ []

-- `REGISTRY[family]`
unfoldable pub reducer_of : String → Option Reducer
unfolding Dict.get registry
reducer_of family = Dict.get family registry
