-- ===== src/Rsm/Tests.antt =====
-- src/rsm: a request from its birth to its eviction, and the theorems at it.
use absolute_zero.Prelude.{
  ℕ, ◌+◌, ◌≤◌, foldl, elem, ◌||◌, String, ◌≡◌, ◌≢◌, refl, true, false, none, some, List, [], ◌∷◌,
  ◌++◌, str_eq, is_some, if◌then◌else◌,
}
use absolute_zero.Prelude.Dict
use absolute_zero.Value.{int, pos, end, field}
use absolute_zero.Rsm.Transitions.{evicted, birth_family, registered_families}
use absolute_zero.Rsm.Record.{RequestRecord, birth, evolve, to_budget, no_budget}
use absolute_zero.Rsm.Journal.{ids}
use absolute_zero.Rsm.Reducers.{
  Event, make_event, reduce_cost_recorded, reducer_of, registry, schemas,
}
use absolute_zero.Rsm.Store.{get_record, state_of, evict_gate}
use absolute_zero.Rsm.Telemetry.{new_telemetry}
use absolute_zero.Rsm.Query.{is_hidden, snapshot, budget, failures, journal_read, enumerate_active}
use absolute_zero.Rsm.Ingest.{Ingest, applied, dropped, raised, names_of, process, process_all}
use absolute_zero.Rsm.Scenario.{birth_event, scheduled, completed, bad_cost, life, lived}
use absolute_zero.Rsm.Requests.{view, serve}
use absolute_zero.Rsm.Requests.Kept.{IsKept, started, requests-IsKept}
use absolute_zero.Rsm.Requests.Once.{SameState, applied-once}
use absolute_zero.Rsm.Requests.Order.{rank, state-advances}
use absolute_zero.Rsm.Requests.Raises.{Crashes, process-raises}
use absolute_zero.Rsm.Requests.Views.{process-view}
use absolute_zero.Rsm.Store.Eviction.{eviction-final}
use absolute_zero.Rsm.Store.Earned.{Persisted, eviction-earned}
use absolute_zero.Rsm.Evolution.{Evolved, reducer-evolves}
use absolute_zero.Rsm.Registry.{registry_complete}
use absolute_zero.Rsm.Ingest.Counting.{count, outcomes, process_all-counts}
use absolute_zero.Rsm.Telemetry.Spacing.{Paced, Change, update_all, update_all-Paced}
use absolute_zero.Rsm.Query.Honest.{reads-honest}
use absolute_zero.Rsm.Requests.Steps.{Call, processing, persisting, evicting, perform, perform_all}

abbrev born : Ingest
born = perform_all (processing 0 birth_event ∷ []) (started none)

abbrev later : List Call
later = processing 2 completed ∷ persisting "r1" 10 ∷ []

abbrev kept : Ingest
kept = perform_all (persisting "r1" 10 ∷ []) lived

abbrev birth_again : List Call
birth_again = processing 20 birth_event ∷ []

scheduled_test : (process 1 scheduled born).1 ≡ applied
unfolding process perform_all
scheduled_test = refl

again_test : (process 1 scheduled lived).1 ≡ dropped
unfolding process perform_all
again_test = refl

bad_cost_test : (process 3 bad_cost lived).1 ≡ raised
unfolding process perform_all
bad_cost_test = refl

process-view_example :
    view "r1" (process 1 scheduled lived).0 ≡ serve "r1" scheduled (view "r1" lived)
process-view_example = process-view 1 scheduled lived "r1"

-- The event is delivered again after the request has ended.
applied-once_example :
    ((process 9 scheduled (perform_all later (process 1 scheduled born).0)).1 ≡ dropped)
    × SameState
        (process 9 scheduled (perform_all later (process 1 scheduled born).0)).0
        (perform_all later (process 1 scheduled born).0)
unfolding process perform_all
applied-once_example =
    applied-once 1 9 scheduled scheduled later born "r1" "e1" "task.scheduled" "task.scheduled" refl
      refl refl

state-advances_example :
    rank (state_of "r1" born.store) ≤ rank (state_of "r1" (perform_all later born).store)
state-advances_example = state-advances later born "r1"

requests-IsKept_example : IsKept "r1" (view "r1" lived)
requests-IsKept_example = requests-IsKept life none "r1"

process-raises_example : Crashes "cost.recorded" bad_cost (get_record "r1" lived.store)
unfolding process perform_all
process-raises_example = process-raises life none 3 bad_cost "r1" "e3" "cost.recorded" refl refl

-- The request is persisted at 10 and the window is 5.
abbrev life_kept : List Call
life_kept = life ++ persisting "r1" 10 ∷ []

eviction-earned_example :
    ((at : ℕ) × Persisted none "r1" life_kept at × (at + 5 ≤ 15))
    × (state_of "r1" (perform (evicting "r1" 15 5) (perform_all life_kept (started none))).store
        ≡ evicted)
    × (get_record "r1" (perform (evicting "r1" 15 5) (perform_all life_kept (started none))).store
        ≡ none)
unfolding process perform_all evict_gate perform
eviction-earned_example = eviction-earned none life_kept "r1" 15 5 refl

-- Too early.
not_evicted_test : (evict_gate "r1" 14 5 kept.store).0 ≡ false
unfolding process perform_all evict_gate perform
not_evicted_test = refl

evicted_test : state_of "r1" (perform (evicting "r1" 15 5) kept).store ≡ evicted
unfolding perform perform_all process state_of
evicted_test = refl

eviction-final_example :
    (state_of "r1" (perform_all birth_again (perform (evicting "r1" 15 5) kept)).store ≡ evicted)
    × (get_record "r1" (perform_all birth_again (perform (evicting "r1" 15 5) kept)).store ≡ none)
    × ((later' : ℕ) (event : Event) (e family : String)
        → names_of event ≡ some ("r1", e, family)
        → (process later' event (perform_all birth_again (perform (evicting "r1" 15 5) kept))).1
          ≢ applied)
unfolding process perform_all evict_gate
eviction-final_example = eviction-final "r1" 15 5 birth_again kept refl

abbrev cost : Event
cost = make_event "e4" "cost.recorded" "r1" (int (pos 1)) (field "amount" (int (pos 7)) end)

abbrev record_one : RequestRecord
record_one = birth "r1" end

reducer-evolves_example :
    Evolved record_one cost
      (evolve record_one (to_budget (record no_budget { consumed = some (pos 7) }) ∷ []))
unfolding reduce_cost_recorded birth reducer_of registry
reducer-evolves_example =
    reducer-evolves "cost.recorded" reduce_cost_recorded record_one cost
      (evolve record_one (to_budget (record no_budget { consumed = some (pos 7) }) ∷ [])) refl refl

registry_complete_example :
    (elem "task.started" registered_families
      ≡ (str_eq "task.started" birth_family || is_some (reducer_of "task.started")))
    × (elem "task.started" registered_families ≡ is_some (Dict.get "task.started" schemas))
registry_complete_example = registry_complete "task.started"

abbrev twice : List (ℕ × Event)
twice = (0, birth_event) ∷ (1, scheduled) ∷ (2, scheduled) ∷ []

process_all-counts_example :
    (process_all twice (started none)).counters
    ≡ foldl (λ c o. count o c) (started none).counters (outcomes twice (started none))
process_all-counts_example = process_all-counts twice (started none)

abbrev changes : List Change
changes = ("r1", "task.started", 0) ∷ ("r1", "task.failed", 3) ∷ ("r1", "cost.recorded", 6) ∷ []

update_all-Paced_example : Paced 3 (new_telemetry 5) (update_all changes (new_telemetry 5))
update_all-Paced_example = update_all-Paced changes (new_telemetry 5)

reads-honest_example :
    (is_some (snapshot lived.store "r1")
      ≡ (if is_hidden (state_of "r1" lived.store) then false else true))
    × (is_some (budget lived.store "r1")
        ≡ (if is_hidden (state_of "r1" lived.store) then false else true))
    × (is_some (failures lived.store "r1")
        ≡ (if is_hidden (state_of "r1" lived.store) then false else true))
    × (snapshot lived.store "r1" ≡ get_record "r1" lived.store)
    × (journal_read lived.journal lived.store "r1"
        ≡ (if is_hidden (state_of "r1" lived.store) then none else some (ids "r1" lived.journal)))
reads-honest_example = reads-honest life none "r1"

enumerate_active_test : enumerate_active born.store ≡ "r1" ∷ []
unfolding process perform_all enumerate_active Dict.keys
enumerate_active_test = refl
