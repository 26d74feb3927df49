-- ===== src/Rsm/Evolution.antt =====
-- src/rsm/reducers.py: what every reducer keeps of the record, and what it adds to it.
mod Step
pub use Step.*
use mathlib.Core.Path.{subst}
use absolute_zero.Prelude.{
  ℕ, suc, String, ◌≡◌, ◌⊎◌, refl, sym, ap, ◌∙◌, inl, inr, Bool, true, false, Option, none, some,
  List, [], ◌∷◌, ◌++◌, elem, length, arith, str_eq, Bool-cases, is_some, or_else, All,
  if◌then◌else◌, all_of,
}
use absolute_zero.Prelude.Dict
use absolute_zero.Prelude.Dict.{Dict}
use absolute_zero.Value.{Value, str, null, obj, is_hashable}
use absolute_zero.Rsm.Record.{
  assign, RequestRecord, FailureEntry, Update, replace, replace_block, evolve, to_lifecycle,
  to_plan, to_work, to_context, to_verification, to_budget, to_failure,
}
use absolute_zero.Rsm.Reducers.{
  Event, Result, ok, fault_of, crashed, ◌>>=◌, Reducer, registry, reducer_of, keyed, validate, item,
  plan_with, failed_with, failure_entry, task_state, exec_state, reduce_intent_classified,
  reduce_plan_created, reduce_plan_revised, reduce_plan_validated, reduce_plan_rejected,
  reduce_task_scheduled, reduce_task_started, reduce_task_preempted, reduce_task_completed,
  reduce_task_failed, reduce_exec_started, reduce_exec_completed, reduce_exec_timeout,
  reduce_exec_failed, reduce_context_assembled, reduce_verify_requested, reduce_verify_passed,
  reduce_verify_failed, reduce_storage_committed, reduce_storage_rejected, reduce_cost_recorded,
  reduce_fault_recorded, reduce_request_completed, reduce_request_failed, reduce_request_rejected,
  reduce_request_cancelled,
}

intent_classified-Evolves : Evolves reduce_intent_classified
unfolding reduce_intent_classified
intent_classified-Evolves r e = ground arith

plan_created-Evolves : Evolves reduce_plan_created
unfolding reduce_plan_created
plan_created-Evolves r e = ground arith

plan_revised-Evolves : Evolves reduce_plan_revised
unfolding reduce_plan_revised
plan_revised-Evolves r e = ground arith

plan_validated-Evolves : Evolves reduce_plan_validated
unfolding reduce_plan_validated
plan_validated-Evolves r e = ground arith

plan_rejected-Evolves : Evolves reduce_plan_rejected
unfolding reduce_plan_rejected
plan_rejected-Evolves r e = after (validate "plan.rejected" e) _ r e (λ p.
    evolve-Fails
      (plan_with r (("status", str "rejected") ∷ ("verdict_ref", item "verdict_ref" p) ∷ [])
        ∷ failed_with "plan.rejected" e (null) r
        ∷ [])
      r e (failure_entry "plan.rejected" e (null) r) refl refl refl)

task_scheduled-Evolves : Evolves reduce_task_scheduled
unfolding reduce_task_scheduled
task_scheduled-Evolves r e = ground arith

task_started-Evolves : Evolves reduce_task_started
unfolding reduce_task_started
task_started-Evolves r e = ground arith

task_preempted-Evolves : Evolves reduce_task_preempted
unfolding reduce_task_preempted
task_preempted-Evolves r e = ground arith

task_completed-Evolves : Evolves reduce_task_completed
unfolding reduce_task_completed
task_completed-Evolves r e = ground arith

task_failed-Evolves : Evolves reduce_task_failed
unfolding reduce_task_failed
task_failed-Evolves r e = after (validate "task.failed" e) _ r e (λ p.
    after (task_state r.work (item "task_id" p) "failed") _ r e (λ w.
      evolve-Fails (to_work w ∷ failed_with "task.failed" e (item "task_id" p) r ∷ []) r e
        (failure_entry "task.failed" e (item "task_id" p) r) refl refl refl))

exec_started-Evolves : Evolves reduce_exec_started
unfolding reduce_exec_started
exec_started-Evolves r e = ground arith

exec_completed-Evolves : Evolves reduce_exec_completed
unfolding reduce_exec_completed
exec_completed-Evolves r e = ground arith

exec_timeout-Evolves : Evolves reduce_exec_timeout
unfolding reduce_exec_timeout
exec_timeout-Evolves r e = after (validate "exec.timeout" e) _ r e (λ p.
    after (exec_state r.work (item "exec_id" p) (("state", str "timeout") ∷ [])) _ r e (λ w.
      evolve-Fails (to_work w ∷ failed_with "exec.timeout" e (item "exec_id" p) r ∷ []) r e
        (failure_entry "exec.timeout" e (item "exec_id" p) r) refl refl refl))

exec_failed-Evolves : Evolves reduce_exec_failed
unfolding reduce_exec_failed
exec_failed-Evolves r e = after (validate "exec.failed" e) _ r e (λ p.
    after (exec_state r.work (item "exec_id" p) (("state", str "failed") ∷ [])) _ r e (λ w.
      evolve-Fails (to_work w ∷ failed_with "exec.failed" e (item "exec_id" p) r ∷ []) r e
        (failure_entry "exec.failed" e (item "exec_id" p) r) refl refl refl))

context_assembled-Evolves : Evolves reduce_context_assembled
unfolding reduce_context_assembled
context_assembled-Evolves r e = ground arith

verify_requested-Evolves : Evolves reduce_verify_requested
unfolding reduce_verify_requested
verify_requested-Evolves r e = ground arith

verify_passed-Evolves : Evolves reduce_verify_passed
unfolding reduce_verify_passed
verify_passed-Evolves r e = ground arith

verify_failed-Evolves : Evolves reduce_verify_failed
unfolding reduce_verify_failed
verify_failed-Evolves r e = after (validate "verify.failed" e) _ r e (λ p.
    keyed-Good (item "gate" p) _ r e (
      evolve-Fails
        (to_verification (
            assign (item "gate" p)
              (obj (("state", str "failed") ∷ ("verdict_ref", item "verdict_ref" p) ∷ []))
              r.verification)
          ∷ failed_with "verify.failed" e (item "gate" p) r
          ∷ [])
        r e (failure_entry "verify.failed" e (item "gate" p) r) refl refl refl))

storage_committed-Evolves : Evolves reduce_storage_committed
unfolding reduce_storage_committed
storage_committed-Evolves r e = ground arith

storage_rejected-Evolves : Evolves reduce_storage_rejected
unfolding reduce_storage_rejected
storage_rejected-Evolves r e = after (validate "storage.rejected" e) _ r e (λ p.
    evolve-Fails
      (to_work (record r.work { commit_ref = some null })
        ∷ failed_with "storage.rejected" e (null) r
        ∷ [])
      r e (failure_entry "storage.rejected" e (null) r) refl refl refl)

cost_recorded-Evolves : Evolves reduce_cost_recorded
unfolding reduce_cost_recorded
cost_recorded-Evolves r e = ground arith

fault_recorded-Evolves : Evolves reduce_fault_recorded
unfolding reduce_fault_recorded
fault_recorded-Evolves r e = after (validate "fault.recorded" e) _ r e (λ p.
    evolve-Fails (failed_with "fault.recorded" e (item "reason" p) r ∷ []) r e
      (failure_entry "fault.recorded" e (item "reason" p) r) refl refl refl)

request_completed-Evolves : Evolves reduce_request_completed
unfolding reduce_request_completed
request_completed-Evolves r e = ground arith

request_failed-Evolves : Evolves reduce_request_failed
unfolding reduce_request_failed
request_failed-Evolves r e = after (validate "request.failed" e) _ r e (λ p.
    evolve-Fails
      (to_lifecycle (obj (("state", str "failed") ∷ ("reason", item "reason" p) ∷ []))
        ∷ failed_with "request.failed" e (null) r
        ∷ [])
      r e (failure_entry "request.failed" e (null) r) refl refl refl)

request_rejected-Evolves : Evolves reduce_request_rejected
unfolding reduce_request_rejected
request_rejected-Evolves r e = ground arith

request_cancelled-Evolves : Evolves reduce_request_cancelled
unfolding reduce_request_cancelled
request_cancelled-Evolves r e = ground arith

registry-Evolves : All (λ entry. Evolves entry.1) registry
unfolding registry
registry-Evolves = (
  intent_classified-Evolves,
  (
    plan_created-Evolves,
    (
      plan_revised-Evolves,
      (
        plan_validated-Evolves,
        (
          plan_rejected-Evolves,
          (
            task_scheduled-Evolves,
            (
              task_started-Evolves,
              (
                task_preempted-Evolves,
                (
                  task_completed-Evolves,
                  (
                    task_failed-Evolves,
                    (
                      exec_started-Evolves,
                      (
                        exec_completed-Evolves,
                        (
                          exec_timeout-Evolves,
                          (
                            exec_failed-Evolves,
                            (
                              context_assembled-Evolves,
                              (
                                verify_requested-Evolves,
                                (
                                  verify_passed-Evolves,
                                  (
                                    verify_failed-Evolves,
                                    (
                                      storage_committed-Evolves,
                                      (
                                        storage_rejected-Evolves,
                                        (
                                          cost_recorded-Evolves,
                                          (
                                            fault_recorded-Evolves,
                                            (
                                              request_completed-Evolves,
                                              (
                                                request_failed-Evolves,
                                                (
                                                  request_rejected-Evolves,
                                                  (request_cancelled-Evolves, tt),
                                                ),
                                              ),
                                            ),
                                          ),
                                        ),
                                      ),
                                    ),
                                  ),
                                ),
                              ),
                            ),
                          ),
                        ),
                      ),
                    ),
                  ),
                ),
              ),
            ),
          ),
        ),
      ),
    ),
  ),
)

some_inj : (f g : Reducer) → some f ≡ some g → f ≡ g
some_inj f g p = ap (λ o. or_else o f) p

found-Evolves :
    (d : Dict Reducer) (family : String) (f : Reducer)
    → All (λ entry. Evolves entry.1) d
    → Dict.get family d ≡ some f
    → Evolves f
unfolding Dict.get
found-Evolves [] family f all h = absurd (cc h)
found-Evolves ((k, g) ∷ d) family f all h = elim (Bool-cases (str_eq k family)) [
  | inl here ↦
      let first : Dict.get family ((k, g) ∷ d) ≡ some g = rw (here, Dict.get) refl in
      subst Evolves (some_inj g f (sym first ∙ h)) all.0
  | inr there ↦
      let next : Dict.get family ((k, g) ∷ d) ≡ Dict.get family d = rw (there, Dict.get) refl in
      found-Evolves d family f all.1 (sym next ∙ h)
]

-- What a reducer of the registry answers, if it answers, is the next version of the record: of the
-- same request, with the identity and the journal data that it had, and with at most one entry
-- more in the Failure block, which is numbered by its position and names the event.
pub reducer-evolves :
    (family : String) (f : Reducer) (r : RequestRecord) (e : Event) (new : RequestRecord)
    → reducer_of family ≡ some f
    → f r e ≡ ok new
    → Evolved r e new
unfolding reducer_of
reducer-evolves family f r e new found answers =
    subst (Good r e) answers (found-Evolves registry family f registry-Evolves found r e)
