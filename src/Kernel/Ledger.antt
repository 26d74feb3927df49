-- ===== src/Kernel/Ledger.antt =====
-- src/kernel/ledger.py: the Request Ledger. `_create` raises on a known id; the coordinator calls
-- it only after a failed lookup.
use absolute_zero.Prelude.{
  ℕ, ◌+◌, String, Bool, false, Option, none, List, [], ◌∷◌, elem, if◌then◌else◌,
}
use absolute_zero.Prelude.Dict
use absolute_zero.Prelude.Dict.{Dict}
use absolute_zero.Value.{ℤ, Value, str}

abbrev pub non_terminal_states : List String
non_terminal_states = "created" ∷ "initialized" ∷ "scheduled" ∷ "executing" ∷ "verifying" ∷ []

abbrev pub terminal_states : List String
terminal_states = "completed" ∷ "failed" ∷ "cancelled" ∷ []

pub record RequestState : Type 0 where
  pub request_id : String
  pub declared_type : String
  pub lifecycle_state : String
  pub config_version : ℤ
  pub recorded_verdicts : Dict Bool
  pub routing_target : Option String
  pub cancellation_flag : Bool
  pub transition_sequence : ℕ
  pub last_applied_event_id : Option String
  pub replan_count : ℕ

-- The constructor call with the defaults of the dataclass.
abbrev pub new_request : String → String → ℤ → RequestState
new_request rid declared_type version = record {
  request_id = rid;
  declared_type = declared_type;
  lifecycle_state = "created";
  config_version = version;
  recorded_verdicts = [];
  routing_target = none;
  cancellation_flag = false;
  transition_sequence = 0;
  last_applied_event_id = none;
  replan_count = 0;
}

abbrev pub Ledger : Type 0
Ledger = Dict RequestState

-- `get(request_id)`: the ids of the ledger are texts.
unfoldable pub get : Value → Ledger → Option RequestState
unfolding Dict.get
get (str rid) l = Dict.get rid l
get _ l = none

unfoldable pub active_count : Ledger → ℕ
active_count [] = 0
active_count ((rid, e) ∷ l) =
    (if elem e.lifecycle_state non_terminal_states then 1 else 0) + active_count l

-- `_create(entry)`, and the writes to an entry that the ledger holds.
unfoldable pub store : RequestState → Ledger → Ledger
unfolding Dict.put
store e l = Dict.put e.request_id e l

unfoldable pub evict : String → Ledger → Ledger
unfolding Dict.remove
evict rid l = Dict.remove rid l
