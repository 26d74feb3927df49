-- ===== src/Rsm/Store.antt =====
-- src/rsm/store.py: the store of the records by request id. `none` of an operation is a
-- ValueError. Times are whole numbers, as is the retention window.
pub mod Reads
pub mod Eviction
pub mod Earned
use absolute_zero.Prelude.{
  ℕ, ◌+◌, String, Bool, true, false, Option, none, some, List, [], ◌∷◌, ◌&&◌, elem, leb, or_else,
  is_some, if◌then◌else◌,
}
use absolute_zero.Prelude.Dict
use absolute_zero.Prelude.Dict.{Dict}
use absolute_zero.Value.{Fields}
use absolute_zero.Rsm.Record.{RequestRecord, birth}
use absolute_zero.Rsm.Transitions.{
  State, absent, active, terminal, persisted, retained, evicted, is_terminal_like,
}

pub record Store : Type 0 where
  pub active_records : Dict RequestRecord
  pub retained_records : Dict RequestRecord
  pub states : Dict State
  pub evicted_ids : List String
  pub persisted_at : Dict ℕ

abbrev pub new_store : Store
new_store = record {
  active_records = [];
  retained_records = [];
  states = [];
  evicted_ids = [];
  persisted_at = [];
}

unfoldable pub state_of : String → Store → State
unfolding Dict.get
state_of r s = if elem r s.evicted_ids then evicted else or_else (Dict.get r s.states) absent

-- `get(request_id)`
unfoldable pub get_record : String → Store → Option RequestRecord
unfolding Dict.get
get_record r s = elim (Dict.get r s.active_records) [
  | some rec' ↦ some rec'
  | none ↦ Dict.get r s.retained_records
]

abbrev pub request_ids : Store → List String
request_ids s = Dict.keys s.states

abbrev pub is_absent : State → Bool
is_absent absent = true
is_absent _ = false

abbrev pub is_active : State → Bool
is_active active = true
is_active _ = false

abbrev pub is_terminal : State → Bool
is_terminal terminal = true
is_terminal _ = false

abbrev pub plant : String → RequestRecord → Store → Store
plant r new s = record s {
  active_records = Dict.put r new s.active_records;
  states = Dict.put r active s.states;
}

unfoldable pub create : String → Fields → Store → Option Store
unfolding state_of birth Dict.put
create r fields s = if is_absent (state_of r s) then some (plant r (birth r fields) s) else none

unfoldable pub apply : String → RequestRecord → Store → Option Store
unfolding Dict.get Dict.put
apply r new s =
    if Dict.contains r s.active_records
    then some (record s { active_records = Dict.put r new s.active_records })
    else if Dict.contains r s.retained_records
    then some (record s { retained_records = Dict.put r new s.retained_records })
    else none

unfoldable pub apply_terminal : String → RequestRecord → Store → Option Store
unfolding state_of Dict.put
apply_terminal r new s =
    if is_active (state_of r s)
    then some (record s {
      active_records = Dict.put r new s.active_records;
      states = Dict.put r terminal s.states;
    })
    else none

-- `mark_persisted(request_id, clock)`, where the clock answers `now`
unfoldable pub mark_persisted : String → ℕ → Store → Option Store
unfolding state_of Dict.put
mark_persisted r now s =
    if is_terminal (state_of r s)
    then some (record s {
      states = Dict.put r persisted s.states;
      persisted_at = Dict.put r now s.persisted_at;
    })
    else none

unfoldable pub mark_evicted : String → Store → Store
unfolding Dict.remove
mark_evicted r s = record {
  active_records = Dict.remove r s.active_records;
  retained_records = Dict.remove r s.retained_records;
  states = Dict.remove r s.states;
  persisted_at = Dict.remove r s.persisted_at;
  evicted_ids = if elem r s.evicted_ids then s.evicted_ids else r ∷ s.evicted_ids;
}

unfoldable pub seed : String → RequestRecord → Store → Option Store
unfolding state_of Dict.put
seed r rec' s = if is_absent (state_of r s) then some (plant r rec' s) else none

abbrev pub eviction_allowed : Bool → Bool → Bool → Bool
eviction_allowed over durable elapsed = over && durable && elapsed

-- `persisted and (clock() - persisted_at) >= retention_window`
abbrev pub retention_elapsed : Option ℕ → ℕ → ℕ → Bool
retention_elapsed none now window = false
retention_elapsed (some at) now window = leb (at + window) now

unfoldable pub evict_gate : String → ℕ → ℕ → Store → Bool × Store
unfolding state_of mark_evicted Dict.get
evict_gate r now window s =
    let at = Dict.get r s.persisted_at in
    if eviction_allowed (is_terminal_like (state_of r s)) (is_some at)
      (retention_elapsed at now window)
    then (true, mark_evicted r s)
    else (false, s)
