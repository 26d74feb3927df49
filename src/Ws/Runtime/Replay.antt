-- ===== src/Ws/Runtime/Replay.antt =====
-- src/ws/runtime.py: the journal of a run against its state.
use absolute_zero.Prelude.{
  String, ◌≡◌, ◌∙◌, refl, sym, ap, inl, inr, Bool, true, false, Option, some, List, [], ◌∷◌, ◌++◌,
  foldl, elem, arith, is_some, str_eq, Bool-cases, Option-cases,
}
use absolute_zero.Prelude.Dict
use absolute_zero.Value.{Value, str}
use absolute_zero.Ws.Runtime.{
  UnitState, pending, executing, succeeded, failed, not_executed, active, completed, stalled,
  Workflow, Rec, activated, run_cancelled, selected, dispatched, exec_result, verdict, terminal,
  workflow_terminal, Progress, Outside, replay_record, replay, fresh, R, Act, ◌then◌, log, emit,
  set_status, set_unit, settle, announce, terminate, reject_others, choose_branch, select_branch,
  schedule_all, select_first, select_all, activate, cancel, add_ok, discard_ok, on_exec_result,
  run_unit, start_unit, release, band_of, populate, execute_unit, sorted, dispatch_next,
  first_ready, on_verdict, Call, activation, cancellation, selection_of, dispatching, result_of,
  verdict_on, perform, perform_all, new_run, is_terminal, is_active, some_blocking_failed,
  all_terminal, eq_state,
}
use absolute_zero.Ws.Runtime.Acts
use absolute_zero.Ws.Runtime.Acts.{then-Keeps}

foldl-snoc :
    {A B : Type 0} (f : B → A → B) (b : B) (xs : List A) (x : A)
    → foldl f b (xs ++ x ∷ []) ≡ f (foldl f b xs) x
foldl-snoc f b [] x = refl
foldl-snoc f b (y ∷ xs) x = foldl-snoc f (f b y) xs x

-- The journal, if there is one, rebuilds the progress.
abbrev Fits : Workflow → Progress → Option (List Rec) → Type 0
Fits wf p j = (js : List Rec) → j ≡ some js → p ≡ replay wf js

module _ (o : Outside) (wf : Workflow) where
  abbrev Tracks : R o wf → Type 0
  Tracks r = Fits wf r.progress r.journal

  abbrev Keeps : Act o wf → Type 0
  Keeps = Acts.Keeps o wf Tracks

  -- A change that has its record at the end of the journal.
  logged :
      (r : R o wf) (rec : Rec)
      → Tracks r
      → Fits wf (replay_record r.progress rec) (log o wf rec r).1.journal
  unfolding log replay
  logged r rec h js e = elim (Option-cases r.journal) [
    | inl none_kept ↦ absurd (ground arith)
    | inr (before, kept) ↦
        let all : js ≡ before ++ rec ∷ [] = ground arith in
        ap (λ q. replay_record q rec) (h before kept)
        ∙ sym (foldl-snoc replay_record (fresh wf) before rec)
        ∙ ap (foldl replay_record (fresh wf)) (sym all)
  ]

  settle-Keeps : Keeps (settle o wf)
  unfolding settle set_status log ◌then◌ replay_record
  settle-Keeps r h = elim (Bool-cases (is_active r.status)) [
    | inr over ↦ rw (over, settle) h
    | inl going ↦ elim (Bool-cases (some_blocking_failed o wf wf.units r)) [
      | inl stuck ↦ rw (going, stuck, settle) (logged r (workflow_terminal stalled) h)
      | inr fine ↦ elim (Bool-cases (all_terminal o wf wf.units r)) [
        | inl ended ↦ rw (going, fine, ended, settle) (logged r (workflow_terminal completed) h)
        | inr open' ↦ rw (going, fine, open', settle) h
      ]
    ]
  ]

  announce-Keeps : (u : String) (outcome : UnitState) → Keeps (announce o wf u outcome)
  unfolding announce emit
  announce-Keeps u not_executed r h = h
  announce-Keeps u succeeded r h = h
  announce-Keeps u pending r h = h
  announce-Keeps u executing r h = h
  announce-Keeps u failed r h = h

  terminate-Keeps : (u : String) (outcome : UnitState) → Keeps (terminate o wf u outcome)
  unfolding terminate set_unit log ◌then◌ replay_record
  terminate-Keeps u outcome r h = elim (Option-cases (Dict.get u r.unit_state)) [
    | inl missing ↦ rw (missing, terminate) h
    | inr (s, found) ↦ elim (Bool-cases (is_terminal (some s))) [
      | inl over ↦ rw (found, over, terminate) h
      | inr open' ↦
          rw (found, open', terminate)
            (then-Keeps o wf Tracks (announce o wf u outcome) (settle o wf)
              (announce-Keeps u outcome) settle-Keeps _ (logged r (terminal u outcome) h))
    ]
  ]

  reject_others-Keeps : (u : String) (us : List String) → Keeps (reject_others o wf u us)
  unfolding reject_others
  reject_others-Keeps u [] r h = h
  reject_others-Keeps u (v ∷ us) r h = elim (Bool-cases (str_eq v u)) [
    | inl own ↦ rw (own, reject_others) (reject_others-Keeps u us r h)
    | inr other ↦
        rw (other, reject_others)
          (then-Keeps o wf Tracks (terminate o wf v not_executed) (reject_others o wf u us)
            (terminate-Keeps v not_executed) (reject_others-Keeps u us) r h)
  ]

  select_branch-Keeps : (g u : String) → Keeps (select_branch o wf g u)
  unfolding select_branch choose_branch log ◌then◌ replay_record
  select_branch-Keeps g u r h = elim (Option-cases (Dict.get g wf.groups)) [
    | inl missing ↦ rw (missing, select_branch) h
    | inr (members, found) ↦ elim (Bool-cases (elem u members)) [
      | inr stranger ↦ rw (found, stranger, select_branch) h
      | inl member ↦ elim (Bool-cases (is_some (Dict.get g r.selection))) [
        | inl again ↦ rw (found, member, again, select_branch) h
        | inr first ↦
            rw (found, member, first, select_branch)
              (reject_others-Keeps u members _ (logged r (selected g u) h))
      ]
    ]
  ]

  emit-Keeps :
      (name unit : String) (payload : List (String × Value)) → Keeps (emit o wf name unit payload)
  unfolding emit
  emit-Keeps name unit payload r h = h

  schedule_all-Keeps : (us : List String) → Keeps (schedule_all o wf us)
  unfolding schedule_all
  schedule_all-Keeps [] r h = h
  schedule_all-Keeps (u ∷ us) r h =
      let payload : List (String × Value) =
        ("unit_id", str u) ∷ ("priority_band", band_of o wf u) ∷ [] in
      then-Keeps o wf Tracks (emit o wf "task.scheduled" u payload) (schedule_all o wf us)
        (emit-Keeps "task.scheduled" u payload) (schedule_all-Keeps us) r h

  select_first-Keeps : (g : String) → Keeps (select_first o wf g)
  unfolding select_first
  select_first-Keeps g r h = elim (Option-cases (Dict.get g wf.groups)) [
    | inl missing ↦ rw (missing, select_first) h
    | inr ([], found) ↦ rw (found, select_first) h
    | inr (u ∷ us, found) ↦ rw (found, select_first) (select_branch-Keeps g u r h)
  ]

  select_all-Keeps : (gs : List String) → Keeps (select_all o wf gs)
  unfolding select_all
  select_all-Keeps [] r h = h
  select_all-Keeps (g ∷ gs) r h =
      then-Keeps o wf Tracks (select_first o wf g) (select_all o wf gs) (select_first-Keeps g)
        (select_all-Keeps gs) r h

  populate-Keeps : Keeps (populate o wf)
  unfolding populate
  populate-Keeps =
      let payload : List (String × Value) = ("content_hash", str wf.content_hash) ∷ [] in
      let groups = sorted (Dict.keys wf.groups) in
      then-Keeps o wf Tracks (emit o wf "workflow.created" "wf" payload)
        (◌then◌ o wf (schedule_all o wf wf.canonical_order) (select_all o wf groups))
        (emit-Keeps "workflow.created" "wf" payload)
        (then-Keeps o wf Tracks (schedule_all o wf wf.canonical_order) (select_all o wf groups)
          (schedule_all-Keeps wf.canonical_order) (select_all-Keeps groups))

  activate-Keeps : Keeps (activate o wf)
  unfolding activate set_status log ◌then◌ replay_record
  activate-Keeps r h = elim (Bool-cases (is_some r.status)) [
    | inl again ↦ rw (again, activate) h
    | inr first ↦
        rw (first, activate)
          (populate-Keeps (log o wf activated (set_status o wf active r).1).1
            (logged r activated h))
  ]

  cancel-Keeps : Keeps (cancel o wf)
  unfolding cancel set_status log ◌then◌ replay_record
  cancel-Keeps r h = elim (Bool-cases (is_active r.status)) [
    | inr over ↦ rw (over, cancel) h
    | inl going ↦ rw (going, cancel) (logged r run_cancelled h)
  ]

  on_exec_result-Keeps : (u : String) (ok : Bool) → Keeps (on_exec_result o wf u ok)
  unfolding on_exec_result add_ok emit log ◌then◌ replay_record
  on_exec_result-Keeps u ok r h = elim (Option-cases (Dict.get u r.unit_state)) [
    | inl missing ↦ rw (missing, on_exec_result) h
    | inr (s, found) ↦ elim (Bool-cases (eq_state (some s) executing)) [
      | inr illegal ↦ rw (found, illegal, on_exec_result) h
      | inl legal ↦ elim (Bool-cases ok) [
        | inl good ↦ rw (found, legal, good, on_exec_result) (logged r (exec_result u true) h)
        | inr bad ↦
            rw (found, legal, bad, on_exec_result)
              (terminate-Keeps u failed _ (logged r (exec_result u false) h))
      ]
    ]
  ]

  run_unit-Keeps : (u : String) → Keeps (run_unit o wf u)
  unfolding run_unit
  run_unit-Keeps u r h = elim (Option-cases (Dict.get u wf.units)) [
    | inl missing ↦ rw (missing, run_unit) h
    | inr (unit, found) ↦ elim (Option-cases (o.execute unit r.world).1) [
      | inl bad ↦ rw (found, bad, run_unit) h
      | inr (ok, good) ↦ rw (found, good, run_unit) (on_exec_result-Keeps u ok _ h)
    ]
  ]

  execute_unit-Keeps : (u : String) → Keeps (execute_unit o wf u)
  unfolding execute_unit
  execute_unit-Keeps u =
      let payload : List (String × Value) = ("unit_id", str u) ∷ [] in
      then-Keeps o wf Tracks (emit o wf "task.started" u payload) (run_unit o wf u)
        (emit-Keeps "task.started" u payload) (run_unit-Keeps u)

  start_unit-Keeps : (u : String) → Keeps (start_unit o wf u)
  unfolding start_unit set_unit log ◌then◌ replay_record
  start_unit-Keeps u r h =
      execute_unit-Keeps u (log o wf (dispatched u) (set_unit o wf u executing r).1).1
        (logged r (dispatched u) h)

  release-Keeps : (bound : Bool) (u : String) → Keeps (release o wf bound u)
  unfolding release
  release-Keeps true u r h = start_unit-Keeps u r h
  release-Keeps false u r h = h

  dispatch_next-Keeps : Keeps (dispatch_next o wf)
  unfolding dispatch_next
  dispatch_next-Keeps r h = elim (Bool-cases (is_active r.status)) [
    | inr over ↦ rw (over, dispatch_next) h
    | inl going ↦ elim (Option-cases (first_ready o wf wf.canonical_order r)) [
      | inl idle ↦ rw (going, idle, dispatch_next) h
      | inr (u, found) ↦ rw (going, found, dispatch_next) (release-Keeps o.bound u r h)
    ]
  ]

  on_verdict-Keeps : (u : String) (passed : Bool) → Keeps (on_verdict o wf u passed)
  unfolding on_verdict discard_ok log ◌then◌ replay_record
  on_verdict-Keeps u passed r h = elim (Bool-cases (elem u r.exec_ok)) [
    | inr early ↦ rw (early, on_verdict) h
    | inl tried ↦ rw (tried, on_verdict) (terminate-Keeps u _ _ (logged r (verdict u passed) h))
  ]

  perform-Keeps : (call : Call) → Keeps (perform o wf call)
  unfolding perform
  perform-Keeps activation = activate-Keeps
  perform-Keeps cancellation = cancel-Keeps
  perform-Keeps (selection_of g u) = select_branch-Keeps g u
  perform-Keeps dispatching = dispatch_next-Keeps
  perform-Keeps (result_of u ok) = on_exec_result-Keeps u ok
  perform-Keeps (verdict_on u passed) = on_verdict-Keeps u passed

  perform_all-Tracks :
      (calls : List Call) (r : R o wf) → Tracks r → Tracks (perform_all o wf calls r)
  unfolding perform_all
  perform_all-Tracks [] r h = h
  perform_all-Tracks (call ∷ calls) r h =
      perform_all-Tracks calls (perform o wf call r).1 (perform-Keeps call r h)

  new-Tracks : (w : o.World) → Tracks (new_run o wf w)
  unfolding new_run replay
  new-Tracks w js e = ground arith

  -- Take a new run with a journal, and any calls of its methods, over any bus, binder and engine,
  -- where a call that raises is followed by the next. The replay of the journal is the progress of
  -- the run: its status, the state of every unit, the executions that await a verdict and the
  -- branches selected.
  pub replay-journal :
      (calls : List Call) (w : o.World) (js : List Rec)
      → let r = perform_all o wf calls (new_run o wf w) in
        r.journal ≡ some js → replay wf js ≡ r.progress
  unfolding new_run
  replay-journal calls w js e = sym (perform_all-Tracks calls (new_run o wf w) (new-Tracks w) js e)
