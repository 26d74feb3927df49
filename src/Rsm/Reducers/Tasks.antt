-- ===== src/Rsm/Reducers/Tasks.antt =====
-- src/rsm/reducers.py: the reducers of tasks and of executions.
use absolute_zero.Prelude.{[], ◌∷◌}
use absolute_zero.Value.{str}
use absolute_zero.Rsm.Record.{to_work, to_budget, evolve, set, look, assign}
use absolute_zero.Rsm.Reducers.Schema.{ok, validate, item, ◌>>=◌}
use absolute_zero.Rsm.Reducers.Blocks.{Reducer, failed_with, task_state, exec_state, plus}

unfoldable pub reduce_task_scheduled : Reducer
unfolding validate item evolve set task_state exec_state plus look assign
reduce_task_scheduled r e = validate "task.scheduled" e >>= (λ p.
    task_state r.work (item "task_id" p) "scheduled" >>= (λ w.
      plus r.budget.granted (item "budget_granted" p)
      >>= (λ sum. ok (evolve r (to_work w ∷ to_budget (record r.budget { granted = sum }) ∷ [])))))

unfoldable pub reduce_task_started : Reducer
unfolding validate item evolve set task_state exec_state plus look assign
reduce_task_started r e = validate "task.started" e >>= (λ p.
    task_state r.work (item "task_id" p) "started" >>= (λ w. ok (evolve r (to_work w ∷ []))))

unfoldable pub reduce_task_preempted : Reducer
unfolding validate item evolve set task_state exec_state plus look assign
reduce_task_preempted r e = validate "task.preempted" e >>= (λ p.
    task_state r.work (item "task_id" p) "preempted" >>= (λ w. ok (evolve r (to_work w ∷ []))))

unfoldable pub reduce_task_completed : Reducer
unfolding validate item evolve set task_state exec_state plus look assign
reduce_task_completed r e = validate "task.completed" e >>= (λ p.
    task_state r.work (item "task_id" p) "completed" >>= (λ w. ok (evolve r (to_work w ∷ []))))

unfoldable pub reduce_task_failed : Reducer
unfolding validate item evolve set task_state exec_state plus look assign
reduce_task_failed r e = validate "task.failed" e >>= (λ p.
    task_state r.work (item "task_id" p) "failed"
    >>= (λ w. ok (evolve r (to_work w ∷ failed_with "task.failed" e (item "task_id" p) r ∷ []))))

unfoldable pub reduce_exec_started : Reducer
unfolding validate item evolve set task_state exec_state plus look assign
reduce_exec_started r e = validate "exec.started" e >>= (λ p.
    exec_state r.work (item "exec_id" p)
      (("state", str "started") ∷ ("task_id", item "task_id" p) ∷ [])
    >>= (λ w. ok (evolve r (to_work w ∷ []))))

unfoldable pub reduce_exec_completed : Reducer
unfolding validate item evolve set task_state exec_state plus look assign
reduce_exec_completed r e = validate "exec.completed" e >>= (λ p.
    exec_state r.work (item "exec_id" p)
      (("state", str "completed") ∷ ("outcome_ref", item "outcome_ref" p) ∷ [])
    >>= (λ w. ok (evolve r (to_work w ∷ []))))

unfoldable pub reduce_exec_timeout : Reducer
unfolding validate item evolve set task_state exec_state plus look assign
reduce_exec_timeout r e = validate "exec.timeout" e >>= (λ p.
    exec_state r.work (item "exec_id" p) (("state", str "timeout") ∷ [])
    >>= (λ w. ok (evolve r (to_work w ∷ failed_with "exec.timeout" e (item "exec_id" p) r ∷ []))))

unfoldable pub reduce_exec_failed : Reducer
unfolding validate item evolve set task_state exec_state plus look assign
reduce_exec_failed r e = validate "exec.failed" e >>= (λ p.
    exec_state r.work (item "exec_id" p) (("state", str "failed") ∷ [])
    >>= (λ w. ok (evolve r (to_work w ∷ failed_with "exec.failed" e (item "exec_id" p) r ∷ []))))
