-- ===== src/Prt/Loading.antt =====
-- src/prt/load_policy.py: the tracker of the states of loading, with the legality of
-- src/prt/lifecycle_legality.py.
pub mod Shown
pub mod Events
use absolute_zero.Prelude.{
  ℕ, String, Bool, true, false, not, ◌&&◌, ◌||◌, Option, none, some, List, [], ◌∷◌, ◌++◌, str_eq,
  or_else, ◌==◌, if◌then◌else◌,
}
use absolute_zero.Prelude.Dict
use absolute_zero.Prelude.Dict.{Dict}

pub data LoadState : Type 0 where
  not_loaded : LoadState
  loading : LoadState
  prepared : LoadState
  loaded : LoadState
  released : LoadState
  unavailable : LoadState

abbrev rank : LoadState → ℕ
rank not_loaded = 0
rank loading = 1
rank prepared = 2
rank loaded = 3
rank released = 4
rank unavailable = 5

abbrev eq_load : LoadState → LoadState → Bool
eq_load s t = rank s == rank t

-- `to_state in _TRANSITIONS[from_state]`
abbrev pub transitions : LoadState → LoadState → Bool
transitions not_loaded loading = true
transitions not_loaded unavailable = true
transitions loading prepared = true
transitions loading unavailable = true
transitions prepared loaded = true
transitions prepared unavailable = true
transitions loaded released = true
transitions loaded unavailable = true
transitions released loading = true
transitions released unavailable = true
transitions unavailable not_loaded = true
transitions s t = false

-- `(from_state, to_state) in LOAD_TRANSITIONS`
abbrev pub load_transitions : LoadState → LoadState → Bool
load_transitions not_loaded t = eq_load t loading || eq_load t unavailable
load_transitions loading t = eq_load t prepared || eq_load t unavailable
load_transitions prepared t = eq_load t loaded || eq_load t unavailable
load_transitions loaded t = eq_load t released || eq_load t unavailable
load_transitions released t = eq_load t loading || eq_load t unavailable
load_transitions unavailable t = eq_load t not_loaded

-- A question to the legality.
pub record Asked : Type 0 where
  pub subject_id : String
  pub from_state : LoadState
  pub to_state : LoadState

abbrev eq_asked : Asked → Asked → Bool
eq_asked a b =
    str_eq a.subject_id b.subject_id
    && eq_load a.from_state b.from_state
    && eq_load a.to_state b.to_state

abbrev pub is_among : Asked → List Asked → Bool
is_among a [] = false
is_among a (b ∷ bs) = eq_asked a b || is_among a bs

-- The legality of loading, with its audit and its overrides.
pub record LifecycleLegality : Type 0 where
  pub calls : List Asked
  pub overrides : List Asked

-- `__call__`
unfoldable pub ask : Asked → LifecycleLegality → LifecycleLegality × Bool
ask a l = (
  record l { calls = l.calls ++ a ∷ [] },
  is_among a l.overrides || load_transitions a.from_state a.to_state,
)

-- `on_lifecycle_event`, of an event with the three keys
unfoldable pub on_lifecycle_event : Asked → LifecycleLegality → LifecycleLegality
on_lifecycle_event a l = record l { overrides = l.overrides ++ a ∷ [] }

-- `plugin.loaded`, or `plugin.unloaded`
pub record LoadEvent : Type 0 where
  pub provider_id : String
  pub is_loaded : Bool

pub record LoadStateTracker : Type 0 where
  pub is_legal : LifecycleLegality
  pub bus : Option (List LoadEvent)
  pub states : Dict LoadState

abbrev pub new_tracker : Option (List LoadEvent) → LoadStateTracker
new_tracker bus = record {
  is_legal = record { calls = []; overrides = [] };
  bus = bus;
  states = [];
}

unfoldable pub load_state : String → LoadStateTracker → LoadState
unfolding Dict.get
load_state p tr = or_else (Dict.get p tr.states) not_loaded

abbrev pub emit : LoadEvent → Option (List LoadEvent) → Option (List LoadEvent)
emit e none = none
emit e (some sent) = some (sent ++ e ∷ [])

-- The event of a transition, if it has one.
abbrev pub announce :
    String → LoadState → LoadState → Option (List LoadEvent) → Option (List LoadEvent)
announce p s loaded bus = emit (record { provider_id = p; is_loaded = true }) bus
announce p loaded released bus = emit (record { provider_id = p; is_loaded = false }) bus
announce p loaded unavailable bus = emit (record { provider_id = p; is_loaded = false }) bus
announce p s t bus = bus

unfoldable pub request_transition : String → LoadState → LoadStateTracker → Bool × LoadStateTracker
unfolding load_state ask Dict.put
request_transition p t tr =
    let s = load_state p tr in
    let (l, granted) = ask (record { subject_id = p; from_state = s; to_state = t }) tr.is_legal in
    if not (transitions s t)
    then (false, tr)
    else if not granted
    then (false, record tr { is_legal = l })
    else (
      true,
      record { is_legal = l; bus = announce p s t tr.bus; states = Dict.put p t tr.states },
    )
