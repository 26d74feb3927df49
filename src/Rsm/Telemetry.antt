-- ===== src/Rsm/Telemetry.antt =====
-- src/rsm/telemetry.py: the emissions. The bus is the list of what was published on it, and the
-- clock the time `now` that each call is given.
pub mod Spacing
use absolute_zero.Prelude.{
  ℕ, suc, ◌+◌, String, Bool, true, false, Option, none, some, List, [], ◌∷◌, ◌++◌, ltb,
  if◌then◌else◌,
}
use absolute_zero.Prelude.Dict
use absolute_zero.Prelude.Dict.{Dict}
use absolute_zero.Rsm.Reducers.{Reason}
use absolute_zero.Rsm.Store.{Store, evict_gate}

-- The `reason` of a fault, with `none` for a row of the table.
pub data FaultReason : Type 0 where
  envelope_malformed : FaultReason
  reducer_fault : Reason → FaultReason

pub data Emission : Type 0 where
  state_updated_event : String → String → ℕ → Emission
  state_evicted_event : String → ℕ → Emission
  fault_recorded_event : Option String → Option String → Option FaultReason → ℕ → Emission

pub record Telemetry : Type 0 where
  pub coalescing_interval : ℕ
  pub last_emit : Dict ℕ
  pub published : List Emission
  pub updates : ℕ
  pub evictions : ℕ
  pub faults : ℕ
  pub coalescing_backlog : ℕ

abbrev pub new_telemetry : ℕ → Telemetry
new_telemetry interval = record {
  coalescing_interval = interval;
  last_emit = [];
  published = [];
  updates = 0;
  evictions = 0;
  faults = 0;
  coalescing_backlog = 0;
}

-- `last is not None and (now - last) < coalescing_interval`
abbrev pub is_suppressed : Option ℕ → ℕ → ℕ → Bool
is_suppressed none now interval = false
is_suppressed (some last) now interval = ltb now (last + interval)

abbrev pub emit_update : String → String → ℕ → Telemetry → Telemetry
emit_update r family now t = record t {
  published = t.published ++ state_updated_event r family now ∷ [];
  last_emit = Dict.put r now t.last_emit;
  updates = suc t.updates;
}

-- `state_updated(request_id, family, immediate)`
unfoldable pub state_updated : String → String → Bool → ℕ → Telemetry → Bool × Telemetry
unfolding Dict.get Dict.put
state_updated r family immediate now t =
    if immediate
    then (true, emit_update r family now t)
    else if is_suppressed (Dict.get r t.last_emit) now t.coalescing_interval
    then (false, record t { coalescing_backlog = suc t.coalescing_backlog })
    else (true, emit_update r family now t)

unfoldable pub state_evicted : String → ℕ → Telemetry → Telemetry
state_evicted r now t = record t {
  published = t.published ++ state_evicted_event r now ∷ [];
  evictions = suc t.evictions;
}

unfoldable pub fault_recorded :
    Option String → Option String → Option FaultReason → ℕ → Telemetry → Telemetry
fault_recorded r family reason now t = record t {
  published = t.published ++ fault_recorded_event r family reason now ∷ [];
  faults = suc t.faults;
}

-- `evict_and_notify(store, telemetry, request_id, clock, retention_window)`
unfoldable pub evict_and_notify : String → ℕ → ℕ → Store → Telemetry → Bool × (Store × Telemetry)
unfolding evict_gate state_evicted
evict_and_notify r now window s t =
    let (gone, s') = evict_gate r now window s in
    (gone, (s', if gone then state_evicted r now t else t))
