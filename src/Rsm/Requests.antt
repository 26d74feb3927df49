-- ===== src/Rsm/Requests.antt =====
-- src/rsm/ingest.py: what the pipeline does to one request, as a machine of its own.
pub mod Raises
pub mod Kept
pub mod Order
pub mod Once
pub mod Accepted
pub mod Steps
pub mod Views
use absolute_zero.Prelude.{
  ℕ, String, ◌≡◌, Bool, true, false, Option, none, some, List, [], ◌∷◌, ◌++◌, elem, length, str_eq,
  if◌then◌else◌,
}
use absolute_zero.Value.{Fields}
use absolute_zero.Rsm.Record.{RequestRecord, birth}
use absolute_zero.Rsm.Transitions.{
  State, active, terminal, Action, create, apply, apply_terminal, fault, drop, unregistered, lookup,
}
use absolute_zero.Rsm.Journal.{Entry, ids, entries}
use absolute_zero.Rsm.Reducers.{
  Event, Reducer, Result, ok, fault_of, crashed, birth_reducer, reducer_of,
}
use absolute_zero.Rsm.Store.{state_of, get_record}
use absolute_zero.Rsm.Ingest.{
  Ingest, Outcome, applied, dropped, faulted, unregistered_out, raised, names_of,
}

-- What a store and a journal hold of one request.
pub record View : Type 0 where
  pub state : State
  pub current : Option RequestRecord
  pub seen : List String
  pub log : List Entry

unfoldable pub view : String → Ingest → View
unfolding state_of get_record ids entries
view r i = record {
  state = state_of r i.store;
  current = get_record r i.store;
  seen = ids r i.journal;
  log = entries r i.journal;
}

-- An event that is applied: the new state and record, and one more entry of the journal.
abbrev pub grown : String → State → RequestRecord → View → View
grown e s new v =
    let entry : Entry = record { event_id = e; seq = length v.log; reducer_version = 1 } in
    record { state = s; current = some new; seen = v.seen ++ e ∷ []; log = v.log ++ entry ∷ [] }

abbrev pub folded : String → State → Result RequestRecord → View → View × Outcome
folded e s (ok new) v = (grown e s new v, applied)
folded e s (fault_of reason) v = (v, faulted)
folded e s crashed v = (v, raised)

abbrev pub born : String → String → Result Fields → View → View × Outcome
born r e (ok fields) v = (grown e active (birth r fields) v, applied)
born r e (fault_of reason) v = (v, faulted)
born r e crashed v = (v, raised)

abbrev pub fold_current :
    Reducer → String → State → Event → View → Option RequestRecord → View × Outcome
fold_current reducer e s event v none = (v, raised)
fold_current reducer e s event v (some current) = folded e s (reducer current event) v

unfoldable pub fold_event : String → String → State → Event → View → View × Outcome
unfolding reducer_of
fold_event e family s event v = elim (reducer_of family) [
  | none ↦ (v, raised)
  | some reducer ↦ fold_current reducer e s event v v.current
]

unfoldable pub act_on : Action → String → String → String → Event → View → View × Outcome
unfolding birth birth_reducer fold_event
act_on unregistered r e family event v = (v, unregistered_out)
act_on fault r e family event v = (v, faulted)
act_on create r e family event v = born r e (birth_reducer event) v
act_on apply_terminal r e family event v = fold_event e family terminal event v
act_on apply r e family event v = fold_event e family v.state event v
act_on drop r e family event v = fold_event e family v.state event v

unfoldable pub accept : String → String → String → Event → View → View × Outcome
unfolding lookup act_on
accept r e family event v =
    if elem e v.seen
    then (v, dropped)
    else act_on (lookup v.state family false false).action r e family event v

-- What `event` makes of the request `q`.
unfoldable pub serve : String → Event → View → View
unfolding accept
serve q event v = elim (names_of event) [
  | none ↦ v
  | some (r, e, family) ↦ if str_eq r q then (accept r e family event v).0 else v
]
