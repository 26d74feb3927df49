-- ===== src/Ws/Runtime/Order.antt =====
-- src/ws/runtime.py: the order in which units are executed, over the calls of a run.
use absolute_zero.Prelude.{
  String, ◌≡◌, ◌∙◌, refl, sym, ap, inl, inr, Bool, true, false, Option, none, some, List, [], ◌∷◌,
  ◌||◌, elem, arith, is_some, str_eq, Bool-cases, Option-cases, if◌then◌else◌,
}
use absolute_zero.Prelude.Dict
use absolute_zero.Prelude.Dict.{Dict, get-put}
use absolute_zero.Value.{Value, str}
use absolute_zero.Ws.Runtime.{
  UnitState, terminal, selected, activated, exec_result, dispatched, verdict, band_of, pending,
  executing, succeeded, failed, not_executed, active, Workflow, Outside, fresh, R, Act, ◌then◌, log,
  emit, set_status, set_unit, settle, announce, terminate, reject_others, choose_branch,
  select_branch, schedule_all, select_first, select_all, activate, cancel, add_ok, discard_ok,
  on_exec_result, run_unit, execute_unit, start_unit, release, dispatch_next, first_ready, is_ready,
  on_verdict, Call, activation, cancellation, selection_of, dispatching, result_of, verdict_on,
  perform, perform_all, new_run, is_terminal, is_active, some_blocking_failed, all_terminal,
  eq_state, populate, sorted,
}
use absolute_zero.Ws.Runtime.Acts
use absolute_zero.Ws.Runtime.Acts.{then-Keeps}
use absolute_zero.Ws.Runtime.Ordered.{
  IsOrdered, is_started, preds_done, fresh-idle, put-IsOrdered, add-IsOrdered, discard-IsOrdered,
}

module _ (o : Outside) (wf : Workflow) where
  abbrev pub Ordered : R o wf → Type 0
  Ordered r = IsOrdered wf r.progress

  abbrev Keeps : Act o wf → Type 0
  Keeps = Acts.Keeps o wf Ordered

  settle-Keeps : Keeps (settle o wf)
  unfolding settle set_status log ◌then◌
  settle-Keeps r h = elim (Bool-cases (is_active r.status)) [
    | inr over ↦ rw (over, settle) h
    | inl going ↦ elim (Bool-cases (some_blocking_failed o wf wf.units r)) [
      | inl stuck ↦ rw (going, stuck, settle) h
      | inr fine ↦ elim (Bool-cases (all_terminal o wf wf.units r)) [
        | inl ended ↦ rw (going, fine, ended, settle) h
        | inr open' ↦ rw (going, fine, open', settle) h
      ]
    ]
  ]

  announce-Keeps : (u : String) (outcome : UnitState) → Keeps (announce o wf u outcome)
  unfolding announce emit
  announce-Keeps u not_executed r h = h
  announce-Keeps u succeeded r h = h
  announce-Keeps u pending r h = h
  announce-Keeps u executing r h = h
  announce-Keeps u failed r h = h

  terminate-Ordered :
      (u : String) (outcome : UnitState) (r : R o wf)
      → Ordered r
      → (is_started (some outcome) ≡ true → preds_done wf r.progress u ≡ true)
      → Ordered (terminate o wf u outcome r).1
  unfolding terminate set_unit log ◌then◌
  terminate-Ordered u outcome r h fit = elim (Option-cases (Dict.get u r.unit_state)) [
    | inl missing ↦ rw (missing, terminate) h
    | inr (s, found) ↦ elim (Bool-cases (is_terminal (some s))) [
      | inl over ↦ rw (found, over, terminate) h
      | inr open' ↦
          rw (found, open', terminate)
            (then-Keeps o wf Ordered (announce o wf u outcome) (settle o wf)
              (announce-Keeps u outcome) settle-Keeps
              (log o wf (terminal u outcome) (set_unit o wf u outcome r).1).1
              (put-IsOrdered wf r.progress h u outcome (not_succeeded s found open') fit))
    ]
  ]
    where
      not_succeeded :
          (s : UnitState)
          → Dict.get u r.unit_state ≡ some s
          → is_terminal (some s) ≡ false
          → eq_state (Dict.get u r.unit_state) succeeded ≡ false
      not_succeeded pending found t = ap (λ x. eq_state x succeeded) found
      not_succeeded executing found t = ap (λ x. eq_state x succeeded) found
      not_succeeded succeeded found t = absurd (cc t)
      not_succeeded failed found t = absurd (cc t)
      not_succeeded not_executed found t = absurd (cc t)

  reject_others-Keeps : (u : String) (us : List String) → Keeps (reject_others o wf u us)
  unfolding reject_others
  reject_others-Keeps u [] r h = h
  reject_others-Keeps u (v ∷ us) r h = elim (Bool-cases (str_eq v u)) [
    | inl own ↦ rw (own, reject_others) (reject_others-Keeps u us r h)
    | inr other ↦
        rw (other, reject_others)
          (then-Keeps o wf Ordered (terminate o wf v not_executed) (reject_others o wf u us)
            (λ s k. terminate-Ordered v not_executed s k (λ started. absurd (cc started)))
            (reject_others-Keeps u us) r h)
  ]

  select_branch-Keeps : (g u : String) → Keeps (select_branch o wf g u)
  unfolding select_branch choose_branch log ◌then◌
  select_branch-Keeps g u r h = elim (Option-cases (Dict.get g wf.groups)) [
    | inl missing ↦ rw (missing, select_branch) h
    | inr (members, found) ↦ elim (Bool-cases (elem u members)) [
      | inr stranger ↦ rw (found, stranger, select_branch) h
      | inl member ↦ elim (Bool-cases (is_some (Dict.get g r.selection))) [
        | inl again ↦ rw (found, member, again, select_branch) h
        | inr first ↦
            rw (found, member, first, select_branch)
              (reject_others-Keeps u members
                (log o wf (selected g u) (choose_branch o wf g u r).1).1 h)
      ]
    ]
  ]

  emit-Keeps :
      (name unit : String) (payload : List (String × Value)) → Keeps (emit o wf name unit payload)
  unfolding emit
  emit-Keeps name unit payload r h = h

  schedule_all-Keeps : (us : List String) → Keeps (schedule_all o wf us)
  unfolding schedule_all
  schedule_all-Keeps [] r h = h
  schedule_all-Keeps (u ∷ us) r h =
      let payload : List (String × Value) =
        ("unit_id", str u) ∷ ("priority_band", band_of o wf u) ∷ [] in
      then-Keeps o wf Ordered (emit o wf "task.scheduled" u payload) (schedule_all o wf us)
        (emit-Keeps "task.scheduled" u payload) (schedule_all-Keeps us) r h

  select_first-Keeps : (g : String) → Keeps (select_first o wf g)
  unfolding select_first
  select_first-Keeps g r h = elim (Option-cases (Dict.get g wf.groups)) [
    | inl missing ↦ rw (missing, select_first) h
    | inr ([], found) ↦ rw (found, select_first) h
    | inr (u ∷ us, found) ↦ rw (found, select_first) (select_branch-Keeps g u r h)
  ]

  select_all-Keeps : (gs : List String) → Keeps (select_all o wf gs)
  unfolding select_all
  select_all-Keeps [] r h = h
  select_all-Keeps (g ∷ gs) r h =
      then-Keeps o wf Ordered (select_first o wf g) (select_all o wf gs) (select_first-Keeps g)
        (select_all-Keeps gs) r h

  populate-Keeps : Keeps (populate o wf)
  unfolding populate
  populate-Keeps =
      let payload : List (String × Value) = ("content_hash", str wf.content_hash) ∷ [] in
      let groups = sorted (Dict.keys wf.groups) in
      then-Keeps o wf Ordered (emit o wf "workflow.created" "wf" payload)
        (◌then◌ o wf (schedule_all o wf wf.canonical_order) (select_all o wf groups))
        (emit-Keeps "workflow.created" "wf" payload)
        (then-Keeps o wf Ordered (schedule_all o wf wf.canonical_order) (select_all o wf groups)
          (schedule_all-Keeps wf.canonical_order) (select_all-Keeps groups))

  activate-Keeps : Keeps (activate o wf)
  unfolding activate set_status log ◌then◌
  activate-Keeps r h = elim (Bool-cases (is_some r.status)) [
    | inl again ↦ rw (again, activate) h
    | inr first ↦
        rw (first, activate) (populate-Keeps (log o wf activated (set_status o wf active r).1).1 h)
  ]

  cancel-Keeps : Keeps (cancel o wf)
  unfolding cancel set_status log ◌then◌
  cancel-Keeps r h = elim (Bool-cases (is_active r.status)) [
    | inr over ↦ rw (over, cancel) h
    | inl going ↦ rw (going, cancel) h
  ]

  -- An executing unit has its predecessors done.
  executing-done :
      (u : String) (s : UnitState) (r : R o wf)
      → Ordered r
      → Dict.get u r.unit_state ≡ some s
      → eq_state (some s) executing ≡ true
      → preds_done wf r.progress u ≡ true
  executing-done u s r h found legal = h u (ground arith)

  on_exec_result-Keeps : (u : String) (ok : Bool) → Keeps (on_exec_result o wf u ok)
  unfolding on_exec_result add_ok emit log ◌then◌
  on_exec_result-Keeps u ok r h = elim (Option-cases (Dict.get u r.unit_state)) [
    | inl missing ↦ rw (missing, on_exec_result) h
    | inr (s, found) ↦ elim (Bool-cases (eq_state (some s) executing)) [
      | inr illegal ↦ rw (found, illegal, on_exec_result) h
      | inl legal ↦ elim (Bool-cases ok) [
        | inl good ↦
            rw (found, legal, good, on_exec_result)
              (add-IsOrdered wf r.progress h u (executing-done u s r h found legal))
        | inr bad ↦
            rw (found, legal, bad, on_exec_result)
              (terminate-Ordered u failed (log o wf (exec_result u false) r).1 h
                (λ started. executing-done u s r h found legal))
      ]
    ]
  ]

  run_unit-Keeps : (u : String) → Keeps (run_unit o wf u)
  unfolding run_unit
  run_unit-Keeps u r h = elim (Option-cases (Dict.get u wf.units)) [
    | inl missing ↦ rw (missing, run_unit) h
    | inr (unit, found) ↦ elim (Option-cases (o.execute unit r.world).1) [
      | inl bad ↦ rw (found, bad, run_unit) h
      | inr (ok, good) ↦ rw (found, good, run_unit) (on_exec_result-Keeps u ok _ h)
    ]
  ]

  execute_unit-Keeps : (u : String) → Keeps (execute_unit o wf u)
  unfolding execute_unit
  execute_unit-Keeps u =
      let payload : List (String × Value) = ("unit_id", str u) ∷ [] in
      then-Keeps o wf Ordered (emit o wf "task.started" u payload) (run_unit o wf u)
        (emit-Keeps "task.started" u payload) (run_unit-Keeps u)

  release-Ordered :
      (bound : Bool) (u : String) (r : R o wf)
      → Ordered r
      → is_ready o wf r u ≡ true
      → Ordered (release o wf bound u r).1
  unfolding release start_unit set_unit log ◌then◌ is_ready
  release-Ordered false u r h ready = h
  release-Ordered true u r h ready =
      execute_unit-Keeps u (log o wf (dispatched u) (set_unit o wf u executing r).1).1 (
        put-IsOrdered wf r.progress h u executing
          (pending-open (Dict.get u r.unit_state) (ground arith)) (λ started. ground arith))
    where
      pending-open :
          (s : Option UnitState) → eq_state s pending ≡ true → eq_state s succeeded ≡ false
      pending-open none e = refl
      pending-open (some pending) e = refl
      pending-open (some executing) e = refl
      pending-open (some succeeded) e = absurd (cc e)
      pending-open (some failed) e = refl
      pending-open (some not_executed) e = refl

  first_ready-is_ready :
      (us : List String) (r : R o wf) (u : String)
      → first_ready o wf us r ≡ some u
      → is_ready o wf r u ≡ true
  unfolding first_ready
  first_ready-is_ready [] r u e = absurd (cc e)
  first_ready-is_ready (v ∷ us) r u e = elim (Bool-cases (is_ready o wf r v)) [
    | inl here ↦ let same : v ≡ u = ground arith in ap (is_ready o wf r) (sym same) ∙ here
    | inr there ↦ first_ready-is_ready us r u (ground arith)
  ]

  dispatch_next-Keeps : Keeps (dispatch_next o wf)
  unfolding dispatch_next
  dispatch_next-Keeps r h = elim (Bool-cases (is_active r.status)) [
    | inr over ↦ rw (over, dispatch_next) h
    | inl going ↦ elim (Option-cases (first_ready o wf wf.canonical_order r)) [
      | inl idle ↦ rw (going, idle, dispatch_next) h
      | inr (u, found) ↦
          rw (going, found, dispatch_next)
            (release-Ordered o.bound u r h (first_ready-is_ready wf.canonical_order r u found))
    ]
  ]

  on_verdict-Keeps : (u : String) (passed : Bool) → Keeps (on_verdict o wf u passed)
  unfolding on_verdict discard_ok log ◌then◌
  on_verdict-Keeps u passed r h = elim (Bool-cases (elem u r.exec_ok)) [
    | inr early ↦ rw (early, on_verdict) h
    | inl tried ↦
        rw (tried, on_verdict)
          (terminate-Ordered u (if passed then succeeded else failed)
            (log o wf (verdict u passed) (discard_ok o wf u r).1).1
            (discard-IsOrdered wf r.progress h u) (λ started. h u (ground arith)))
  ]

  perform-Keeps : (call : Call) → Keeps (perform o wf call)
  unfolding perform
  perform-Keeps activation = activate-Keeps
  perform-Keeps cancellation = cancel-Keeps
  perform-Keeps (selection_of g u) = select_branch-Keeps g u
  perform-Keeps dispatching = dispatch_next-Keeps
  perform-Keeps (result_of u ok) = on_exec_result-Keeps u ok
  perform-Keeps (verdict_on u passed) = on_verdict-Keeps u passed

  perform_all-Ordered :
      (calls : List Call) (r : R o wf) → Ordered r → Ordered (perform_all o wf calls r)
  unfolding perform_all
  perform_all-Ordered [] r h = h
  perform_all-Ordered (call ∷ calls) r h =
      perform_all-Ordered calls (perform o wf call r).1 (perform-Keeps call r h)

  fresh-Ordered : (w : o.World) → Ordered (new_run o wf w)
  unfolding new_run fresh
  fresh-Ordered w u h = absurd (ground (arith, fresh-idle wf.units u))

  -- Take a new run and any calls of its methods, over any bus, binder and engine, where a call that
  -- raises is followed by the next. A unit that is executing, has succeeded or has failed, or whose
  -- execution awaits its verdict, has only predecessors that have succeeded.
  pub started-preds_done :
      (calls : List Call) (w : o.World) (u : String)
      → let p = (perform_all o wf calls (new_run o wf w)).progress in
        (is_started (Dict.get u p.unit_state) || elem u p.exec_ok) ≡ true → preds_done wf p u ≡ true
  started-preds_done calls w u h = perform_all-Ordered calls (new_run o wf w) (fresh-Ordered w) u h
