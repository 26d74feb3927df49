-- ===== src/Rsm/Scenario.antt =====
-- src/rsm: the events and the calls of a request, for the tests.
use absolute_zero.Prelude.{String, none, List, [], ◌∷◌}
use absolute_zero.Value.{Value, int, str, pos, Fields, end, field}
use absolute_zero.Rsm.Reducers.{Event, make_event}
use absolute_zero.Rsm.Ingest.{Ingest}
use absolute_zero.Rsm.Requests.Kept.{started}
use absolute_zero.Rsm.Requests.Steps.{Call, processing, perform_all}

abbrev pub fields : List (String × Value) → Fields
fields [] = end
fields ((k, v) ∷ more) = field k v (fields more)

abbrev pub birth_event : Event
birth_event =
    make_event "e0" "request.received" "r1" (int (pos 1))
      (fields (("declared_type", str "type.alpha") ∷ ("origin", str "frontend") ∷ []))

abbrev pub scheduled : Event
scheduled =
    make_event "e1" "task.scheduled" "r1" (int (pos 1))
      (fields (("task_id", str "t1") ∷ ("budget_granted", int (pos 5)) ∷ []))

abbrev pub completed : Event
completed = make_event "e2" "request.completed" "r1" (int (pos 1)) end

-- An amount that is not a number.
abbrev pub bad_cost : Event
bad_cost =
    make_event "e3" "cost.recorded" "r1" (int (pos 1)) (fields (("amount", str "three") ∷ []))

abbrev pub life : List Call
life = processing 0 birth_event ∷ processing 1 scheduled ∷ processing 2 completed ∷ []

abbrev pub lived : Ingest
lived = perform_all life (started none)
