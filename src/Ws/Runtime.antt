-- ===== src/Ws/Runtime.antt =====
-- src/ws/runtime.py: the methods of a run, each in the order of its effects, and the calls of them.
mod State
pub mod Acts
pub mod Replay
pub mod Ordered
pub mod Order
use Prim.Native.String.{compare, ◌++◌ as ◌^◌}
use Prim.Native.Nat.{Ordering}
use absolute_zero.Prelude.{
  String, Bool, true, false, Option, none, some, List, [], ◌∷◌, ◌++◌, ◌&&◌, not, map, foldl, elem,
  all_of, is_some, str_eq, if◌then◌else◌,
}
use absolute_zero.Prelude.Dict
use absolute_zero.Prelude.Dict.{Dict}
use absolute_zero.Value.{Value, str, dict, obj}
unfoldable pub use State.*

module _ (o : Outside) (wf : Workflow) where
  open o use {World, publish, bound, execute}

  abbrev pub R : Type 0
  R = Run World

  -- A piece of a method: it changes the run, and may raise.
  abbrev pub Act : Type 0
  Act = R → Outcome × R

  infixr 20 ◌then◌
  unfoldable pub ◌then◌ : Act → Act → Act
  (a then b) r =
      let (out, s) = a r in let next = b s in elim out [ done ↦ next | raised e ↦ (raised e, s) ]

  abbrev pub skip : Act
  skip r = (done, r)

  abbrev pub refuse : String → Act
  refuse reason r = (raised reason, r)

  -- `_record`
  unfoldable pub log : Rec → Act
  log rec r = (
    done,
    record r { journal = elim r.journal [ none ↦ none | some js ↦ some (js ++ rec ∷ []) ] },
  )

  -- `_emit`: the id of the event is made of the unit, "wf" if there is none, and the name.
  unfoldable pub emit : String → String → List (String × Value) → Act
  emit name unit payload r =
      let (w, sent) =
        publish name unit (dict (obj (("workflow_id", str wf.workflow_id) ∷ payload))) r.world in
      (if sent then done else raised "bus", record r { world = w })

  unfoldable pub set_status : Status → Act
  set_status s r = (done, record r { progress = record r.progress { status = some s } })

  unfoldable pub set_unit : String → UnitState → Act
  unfolding Dict.put
  set_unit u s r =
      (done, record r { progress = record r.progress { unit_state = Dict.put u s r.unit_state } })

  -- `_settle`
  abbrev blocking : UnitSpec → Bool
  blocking unit = elem unit.priority_band ("CRITICAL" ∷ "REQUIRED" ∷ [])

  unfoldable pub some_blocking_failed : Dict UnitSpec → R → Bool
  unfolding Dict.get
  some_blocking_failed [] r = false
  some_blocking_failed ((u, unit) ∷ units) r =
      let rest = some_blocking_failed units r in
      if blocking unit && eq_state (Dict.get u r.unit_state) failed then true else rest

  unfoldable pub all_terminal : Dict UnitSpec → R → Bool
  unfolding Dict.get
  all_terminal [] r = true
  all_terminal ((u, unit) ∷ units) r = is_terminal (Dict.get u r.unit_state) && all_terminal units r

  unfoldable pub settle : Act
  unfolding set_status log some_blocking_failed all_terminal ◌then◌
  settle r =
      if not (is_active r.status)
      then skip r
      else if some_blocking_failed wf.units r
      then (set_status stalled then log (workflow_terminal stalled)) r
      else if all_terminal wf.units r
      then (set_status completed then log (workflow_terminal completed)) r
      else skip r

  -- The event of a unit that has ended.
  announce : String → UnitState → Act
  unfolding emit
  announce u not_executed = skip
  announce u succeeded =
      emit "task.completed" u (("unit_id", str u) ∷ ("outcome", str (state_name succeeded)) ∷ [])
  announce u outcome =
      emit "task.failed" u (("unit_id", str u) ∷ ("outcome", str (state_name outcome)) ∷ [])

  -- `_terminal`
  unfoldable pub terminate : String → UnitState → Act
  unfolding set_unit log announce settle ◌then◌ Dict.get
  terminate u outcome r = elim (Dict.get u r.unit_state) [
    | none ↦ refuse "KeyError" r
    | some s ↦
        if is_terminal (some s)
        then refuse ("ws.double_terminal:" ^ u) r
        else (set_unit u outcome then log (terminal u outcome) then announce u outcome then settle)
            r
  ]

  -- The members of a group that are not selected.
  unfoldable pub reject_others : String → List String → Act
  unfolding terminate ◌then◌
  reject_others chosen [] = skip
  reject_others chosen (u ∷ us) =
      if str_eq u chosen
      then reject_others chosen us
      else (terminate u not_executed then reject_others chosen us)

  unfoldable pub choose_branch : String → String → Act
  unfolding Dict.put
  choose_branch g u r =
      (done, record r { progress = record r.progress { selection = Dict.put g u r.selection } })

  -- `select_branch`
  unfoldable pub select_branch : String → String → Act
  unfolding choose_branch log reject_others ◌then◌ Dict.get
  select_branch g u r = elim (Dict.get g wf.groups) [
    | none ↦ refuse ("ws.bad_selection:" ^ (g ^ (":" ^ u))) r
    | some members ↦
        if not (elem u members)
        then refuse ("ws.bad_selection:" ^ (g ^ (":" ^ u))) r
        else if is_some (Dict.get g r.selection)
        then refuse ("ws.reselection:" ^ g) r
        else (choose_branch g u then log (selected g u) then reject_others u members) r
  ]

  unfoldable pub band_of : String → Value
  unfolding Dict.get
  band_of u = elim (Dict.get u wf.units) [ none ↦ str "" | some unit ↦ str unit.priority_band ]

  unfoldable pub schedule_all : List String → Act
  unfolding emit band_of ◌then◌
  schedule_all [] = skip
  schedule_all (u ∷ us) =
      emit "task.scheduled" u (("unit_id", str u) ∷ ("priority_band", band_of u) ∷ [])
      then schedule_all us

  -- The default selection of a group: its first member.
  unfoldable pub select_first : String → Act
  unfolding select_branch Dict.get
  select_first g = elim (Dict.get g wf.groups) [
    | some (u ∷ us) ↦ select_branch g u
    | some [] ↦ refuse "IndexError"
    | none ↦ refuse "KeyError"
  ]

  unfoldable pub select_all : List String → Act
  unfolding select_first ◌then◌
  select_all [] = skip
  select_all (g ∷ gs) = select_first g then select_all gs

  -- The rest of `activate`: the events, and the default selections.
  unfoldable pub populate : Act
  unfolding emit schedule_all select_all sorted Dict.keys ◌then◌
  populate =
      emit "workflow.created" "wf" (("content_hash", str wf.content_hash) ∷ [])
      then schedule_all wf.canonical_order
      then select_all (sorted (Dict.keys wf.groups))

  -- `activate`
  unfoldable pub activate : Act
  unfolding set_status log populate ◌then◌
  activate r =
      if is_some r.status
      then refuse "ws.activate_twice" r
      else (set_status active then log activated then populate) r

  -- `cancel`
  unfoldable pub cancel : Act
  unfolding set_status log ◌then◌
  cancel r =
      if not (is_active r.status)
      then refuse ("ws.cancel_illegal:" ^ status_name r.status) r
      else (set_status cancelled then log run_cancelled) r

  -- `_branch_allows`
  unfoldable pub branch_allows : String → R → Bool
  unfolding Dict.get
  branch_allows u r = elim (Dict.get u wf.units) [
    | none ↦ false
    | some unit ↦ elim unit.group_id [
      | none ↦ true
      | some g ↦ elim (Dict.get g r.selection) [ none ↦ false | some v ↦ str_eq v u ]
    ]
  ]

  unfoldable pub is_ready : R → String → Bool
  unfolding branch_allows predecessors Dict.get
  is_ready r u =
      eq_state (Dict.get u r.unit_state) pending
      && branch_allows u r
      && all_of (λ p. eq_state (Dict.get p r.unit_state) succeeded) (predecessors u wf.edges)

  -- The first unit of `ready`.
  unfoldable pub first_ready : List String → R → Option String
  unfolding is_ready
  first_ready [] r = none
  first_ready (u ∷ us) r = let rest = first_ready us r in if is_ready r u then some u else rest

  unfoldable pub add_ok : String → Act
  unfolding add
  add_ok u r = (done, record r { progress = record r.progress { exec_ok = add u r.exec_ok } })

  unfoldable pub discard_ok : String → Act
  unfolding discard
  discard_ok u r =
      (done, record r { progress = record r.progress { exec_ok = discard u r.exec_ok } })

  -- `on_exec_result`
  unfoldable pub on_exec_result : String → Bool → Act
  unfolding log terminate add_ok emit ◌then◌ Dict.get
  on_exec_result u ok r = elim (Dict.get u r.unit_state) [
    | none ↦ refuse "KeyError" r
    | some s ↦
        if not (eq_state (some s) executing)
        then refuse ("ws.exec_result_illegal:" ^ state_name s) r
        else if ok
        then (log (exec_result u true)
              then add_ok u
              then emit "verify.requested" u (("unit_id", str u) ∷ []))
            r
        else (log (exec_result u false) then terminate u failed) r
  ]

  -- `self.engine.run(self.engine.submit(self.binder(unit)))`, and then `on_exec_result`.
  unfoldable pub run_unit : String → Act
  unfolding on_exec_result Dict.get
  run_unit u r = elim (Dict.get u wf.units) [
    | none ↦ refuse "KeyError" r
    | some unit ↦
        let (w, result) = execute unit r.world in
        let s = record r { world = w } in
        elim result [ none ↦ (raised "engine", s) | some ok ↦ on_exec_result u ok s ]
  ]

  unfoldable pub execute_unit : String → Act
  unfolding emit run_unit ◌then◌
  execute_unit u = emit "task.started" u (("unit_id", str u) ∷ []) then run_unit u

  unfoldable pub start_unit : String → Act
  unfolding set_unit log execute_unit ◌then◌
  start_unit u = set_unit u executing then log (dispatched u) then execute_unit u

  -- Without a binder or an engine nothing is dispatched.
  unfoldable pub release : Bool → String → Act
  unfolding start_unit
  release true u = start_unit u
  release false u = refuse "ws.no_binder_or_engine"

  -- `dispatch_next`, without the value that it returns.
  unfoldable pub dispatch_next : Act
  unfolding release first_ready
  dispatch_next r =
      if not (is_active r.status)
      then skip r
      else elim (first_ready wf.canonical_order r) [ none ↦ skip r | some u ↦ release bound u r ]

  -- `on_verdict`
  unfoldable pub on_verdict : String → Bool → Act
  unfolding discard_ok log terminate ◌then◌
  on_verdict u passed r =
      if not (elem u r.exec_ok)
      then refuse ("ws.verdict_without_execution:" ^ u) r
      else (discard_ok u
            then log (verdict u passed)
            then terminate u (if passed then succeeded else failed))
          r

-- The calls from outside.
pub data Call : Type 0 where
  activation : Call
  cancellation : Call
  selection_of : String → String → Call
  dispatching : Call
  result_of : String → Bool → Call
  verdict_on : String → Bool → Call

module _ (o : Outside) (wf : Workflow) where
  unfoldable pub perform : Call → Act o wf
  unfolding activate cancel select_branch dispatch_next on_exec_result on_verdict
  perform activation = activate o wf
  perform cancellation = cancel o wf
  perform (selection_of g u) = select_branch o wf g u
  perform dispatching = dispatch_next o wf
  perform (result_of u ok) = on_exec_result o wf u ok
  perform (verdict_on u passed) = on_verdict o wf u passed

  -- The calls in turn; a call that raises is followed by the next.
  unfoldable pub perform_all : List Call → R o wf → R o wf
  unfolding perform
  perform_all [] r = r
  perform_all (call ∷ calls) r = perform_all calls (perform call r).1

  -- `WorkflowRun(workflow, storage, bus, binder, engine)`
  unfoldable pub new_run : o.World → R o wf
  unfolding fresh
  new_run w = record { progress = fresh wf; journal = some []; world = w }
