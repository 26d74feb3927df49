-- ===== src/Rsm/Ingest.antt =====
-- src/rsm/ingest.py: the pipeline that every event goes through.
pub mod Counting
use absolute_zero.Prelude.{
  ◌>>=◌, ℕ, suc, String, Bool, true, false, Option, none, some, List, [], ◌∷◌, str_eq,
  if◌then◌else◌,
}
use absolute_zero.Value.{Fields}
use absolute_zero.Rsm.Record.{RequestRecord}
use absolute_zero.Rsm.Transitions.{
  State, Action, create, apply, apply_terminal, fault, drop, unregistered, lookup,
}
use absolute_zero.Rsm.Journal.{Journal, has, append}
use absolute_zero.Rsm.Reducers.{
  Event, Result, ok, fault_of, crashed, Reason, Reducer, birth_reducer, reducer_of,
}
use absolute_zero.Rsm.Store
use absolute_zero.Rsm.Store.{Store, state_of, get_record}
use absolute_zero.Rsm.Telemetry.{
  Telemetry, FaultReason, envelope_malformed, reducer_fault, state_updated, fault_recorded,
}

-- `raised` is an exception that leaves `process`.
pub data Outcome : Type 0 where
  applied : Outcome
  dropped : Outcome
  faulted : Outcome
  unregistered_out : Outcome
  raised : Outcome

pub record Counters : Type 0 where
  pub applied_count : ℕ
  pub dedup_drop : ℕ
  pub fault_count : ℕ
  pub unregistered_count : ℕ

abbrev no_counts : Counters
no_counts = record { applied_count = 0; dedup_drop = 0; fault_count = 0; unregistered_count = 0 }

pub record Ingest : Type 0 where
  pub store : Store
  pub journal : Journal
  pub counters : Counters
  pub telemetry : Option Telemetry

-- `Ingest(store, journal, telemetry)`
abbrev pub new_ingest : Store → Journal → Option Telemetry → Ingest
new_ingest s j t = record { store = s; journal = j; counters = no_counts; telemetry = t }

-- `self.counters["fault"] += 1`, `self._telemetry("fault", ...)` and the outcome
unfoldable pub record_fault :
    Option String → Option String → Option FaultReason → ℕ → Ingest → Ingest × Outcome
unfolding fault_recorded
record_fault r family reason now i = (
  record i {
    counters = record i.counters { fault_count = suc i.counters.fault_count };
    telemetry = elim i.telemetry [
      | none ↦ none
      | some t ↦ some (fault_recorded r family reason now t)
    ];
  },
  faulted,
)

-- The journal, the counter and the emission of an event that was applied to the store.
unfoldable pub record_applied :
    String → String → String → Bool → ℕ → Store → Ingest → Ingest × Outcome
unfolding append state_updated
record_applied r e family immediate now s i = elim (append r e 1 i.journal) [
  | none ↦ (record i { store = s }, raised)
  | some (seq, j) ↦ (
    record i {
      store = s;
      journal = j;
      counters = record i.counters { applied_count = suc i.counters.applied_count };
      telemetry = elim i.telemetry [
        | none ↦ none
        | some t ↦ some (state_updated r family immediate now t).1
      ];
    },
    applied,
  )
]

-- The outcome of the store's operation, where `none` is a ValueError.
unfoldable pub stored :
    String → String → String → Bool → ℕ → Option Store → Ingest → Ingest × Outcome
unfolding record_applied
stored r e family immediate now none i = (i, raised)
stored r e family immediate now (some s) i = record_applied r e family immediate now s i

-- The CREATE row.
unfoldable pub give_birth : String → String → String → Event → ℕ → Ingest → Ingest × Outcome
unfolding birth_reducer Store.create stored record_fault
give_birth r e family event now i = elim (birth_reducer event) [
  | crashed ↦ (i, raised)
  | fault_of reason ↦ record_fault (some r) (some family) (some (reducer_fault reason)) now i
  | ok fields ↦ stored r e family true now (Store.create r fields i.store) i
]

-- The APPLY and APPLY_TERMINAL rows, past the reducer.
unfoldable pub keep :
    String → String → String → Bool → ℕ → Result RequestRecord → Ingest → Ingest × Outcome
unfolding Store.apply Store.apply_terminal stored record_fault
keep r e family ends now crashed i = (i, raised)
keep r e family ends now (fault_of reason) i =
    record_fault (some r) (some family) (some (reducer_fault reason)) now i
keep r e family ends now (ok new) i =
    stored r e family ends now
      (if ends then Store.apply_terminal r new i.store else Store.apply r new i.store) i

-- `REGISTRY[family]` and the record that it folds; a family or a record that is missing raises.
unfoldable pub fold : String → String → String → Bool → Event → ℕ → Ingest → Ingest × Outcome
unfolding reducer_of get_record keep
fold r e family ends event now i = elim (reducer_of family) [
  | none ↦ (i, raised)
  | some reducer ↦ elim (get_record r i.store) [
    | none ↦ (i, raised)
    | some current ↦ keep r e family ends now (reducer current event) i
  ]
]

unfoldable pub act : Action → String → String → String → Event → ℕ → Ingest → Ingest × Outcome
unfolding record_fault give_birth fold
act unregistered r e family event now i = (
  record i {
    counters = record i.counters { unregistered_count = suc i.counters.unregistered_count };
  },
  unregistered_out,
)
act fault r e family event now i = record_fault (some r) (some family) none now i
act create r e family event now i = give_birth r e family event now i
act apply_terminal r e family event now i = fold r e family true event now i
act apply r e family event now i = fold r e family false event now i
act drop r e family event now i = fold r e family false event now i

-- `process`, for an envelope that has its three names
unfoldable pub process_named : String → String → String → Event → ℕ → Ingest → Ingest × Outcome
unfolding has state_of lookup act
process_named r e family event now i =
    if has r e i.journal
    then (
      record i { counters = record i.counters { dedup_drop = suc i.counters.dedup_drop } },
      dropped,
    )
    else act (lookup (state_of r i.store) family false false).action r e family event now i

-- A text that is there and not empty.
abbrev pub name_of : Option String → Option String
name_of none = none
name_of (some s) = if str_eq s "" then none else some s

-- The request id, the event id and the family, if the envelope has all three.
abbrev pub names_of : Event → Option (String × String × String)
names_of event = do
  r ← name_of event.request_id
  e ← name_of event.event_id
  family ← name_of event.family
  some (r, e, family)

-- `process(event)` at the time `now`
unfoldable pub process : ℕ → Event → Ingest → Ingest × Outcome
unfolding record_fault process_named
process now event i = elim (names_of event) [
  | none ↦ record_fault none none (some envelope_malformed) now i
  | some (r, e, family) ↦ process_named r e family event now i
]

unfoldable pub process_all : List (ℕ × Event) → Ingest → Ingest
unfolding process
process_all [] i = i
process_all ((now, event) ∷ more) i = process_all more (process now event i).0
