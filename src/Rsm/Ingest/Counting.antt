-- ===== src/Rsm/Ingest/Counting.antt =====
-- src/rsm/ingest.py: the health counters.
use absolute_zero.Prelude.{
  ℕ, suc, String, foldl, ap, ◌∙◌, ◌≡◌, refl, inl, inr, Bool, true, false, Option, none, some, List,
  [], ◌∷◌, Bool-cases, Option-cases, if◌then◌else◌,
}
use absolute_zero.Rsm.Record.{RequestRecord}
use absolute_zero.Rsm.Transitions.{
  Action, create, apply, apply_terminal, fault, drop, unregistered, lookup,
}
use absolute_zero.Rsm.Journal.{append, has}
use absolute_zero.Rsm.Reducers.{
  Event, Result, ok, fault_of, crashed, Result-Cases, is_ok, is_fault, is_crash, birth_reducer,
  reducer_of,
}
use absolute_zero.Rsm.Store
use absolute_zero.Rsm.Store.{Store, state_of, get_record}
use absolute_zero.Rsm.Telemetry.{FaultReason, reducer_fault, envelope_malformed}
use absolute_zero.Rsm.Ingest.{
  Ingest, Counters, Outcome, applied, dropped, faulted, unregistered_out, raised, record_fault,
  record_applied, stored, give_birth, keep, fold, act, process_named, process, process_all,
  names_of,
}

-- One more of the outcome; an exception is not counted.
abbrev pub count : Outcome → Counters → Counters
count applied c = record c { applied_count = suc c.applied_count }
count dropped c = record c { dedup_drop = suc c.dedup_drop }
count faulted c = record c { fault_count = suc c.fault_count }
count unregistered_out c = record c { unregistered_count = suc c.unregistered_count }
count raised c = c

abbrev Counts : Ingest → Ingest × Outcome → Type 0
Counts i out = out.0.counters ≡ count out.1 i.counters

fault-Counts :
    (a b : Option String) (reason : Option FaultReason) (now : ℕ) (i : Ingest)
    → Counts i (record_fault a b reason now i)
unfolding record_fault
fault-Counts a b reason now i = refl

stored-Counts :
    (r e family : String) (immediate : Bool) (now : ℕ) (s : Option Store) (i : Ingest)
    → Counts i (stored r e family immediate now s i)
unfolding stored record_applied
stored-Counts r e family immediate now none i = refl
stored-Counts r e family immediate now (some s) i = elim (Option-cases (append r e 1 i.journal)) [
  | inl twice ↦ rw (twice, stored, record_applied) refl
  | inr (entry, fine) ↦ rw (fine, stored, record_applied) refl
]

keep-Counts :
    (r e family : String) (ends : Bool) (now : ℕ) (x : Result RequestRecord) (i : Ingest)
    → Counts i (keep r e family ends now x i)
unfolding keep
keep-Counts r e family ends now crashed i = refl
keep-Counts r e family ends now (fault_of reason) i =
    fault-Counts (some r) (some family) (some (reducer_fault reason)) now i
keep-Counts r e family ends now (ok new) i =
    stored-Counts r e family ends now
      (if ends then Store.apply_terminal r new i.store else Store.apply r new i.store) i

fold-Counts :
    (r e family : String) (ends : Bool) (event : Event) (now : ℕ) (i : Ingest)
    → Counts i (fold r e family ends event now i)
unfolding fold
fold-Counts r e family ends event now i = elim (Option-cases (reducer_of family)) [
  | inl none' ↦ rw (none', fold) refl
  | inr (reducer, found) ↦ elim (Option-cases (get_record r i.store)) [
    | inl gone ↦ rw (found, gone, fold) refl
    | inr (current, live) ↦
        rw (found, live, fold) (keep-Counts r e family ends now (reducer current event) i)
  ]
]

give_birth-Counts :
    (r e family : String) (event : Event) (now : ℕ) (i : Ingest)
    → Counts i (give_birth r e family event now i)
unfolding give_birth
give_birth-Counts r e family event now i = elim (Result-Cases (birth_reducer event)) [
  | is_crash c ↦ rw (c, give_birth) refl
  | is_ok f c ↦ rw (c, give_birth) (stored-Counts r e family true now (Store.create r f i.store) i)
  | is_fault reason c ↦
      rw (c, give_birth) (fault-Counts (some r) (some family) (some (reducer_fault reason)) now i)
]

act-Counts :
    (a : Action) (r e family : String) (event : Event) (now : ℕ) (i : Ingest)
    → Counts i (act a r e family event now i)
unfolding act
act-Counts unregistered r e family event now i = refl
act-Counts fault r e family event now i = fault-Counts (some r) (some family) none now i
act-Counts create r e family event now i = give_birth-Counts r e family event now i
act-Counts apply_terminal r e family event now i = fold-Counts r e family true event now i
act-Counts apply r e family event now i = fold-Counts r e family false event now i
act-Counts drop r e family event now i = fold-Counts r e family false event now i

process-Counts : (now : ℕ) (event : Event) (i : Ingest) → Counts i (process now event i)
unfolding process process_named
process-Counts now event i = elim (Option-cases (names_of event)) [
  | inl unnamed ↦ rw (unnamed, process) (fault-Counts none none (some envelope_malformed) now i)
  | inr ((r, e, family), named) ↦ elim (Bool-cases (has r e i.journal)) [
    | inl again ↦ rw (named, process, process_named, again) refl
    | inr fresh ↦
        rw (named, process, process_named, fresh)
          (act-Counts (lookup (state_of r i.store) family false false).action r e family event now
            i)
  ]
]

unfoldable pub outcomes : List (ℕ × Event) → Ingest → List Outcome
unfolding process
outcomes [] i = []
outcomes ((now, event) ∷ more) i = (process now event i).1 ∷ outcomes more (process now event i).0

-- The health counters count the outcomes: after any events, each of the four is what it was, and
-- the number of the events with its outcome; an exception that leaves `process` is not counted.
pub process_all-counts :
    (events : List (ℕ × Event)) (i : Ingest)
    → (process_all events i).counters ≡ foldl (λ c o. count o c) i.counters (outcomes events i)
unfolding process_all outcomes
process_all-counts [] i = refl
process_all-counts ((now, event) ∷ more) i =
    process_all-counts more (process now event i).0
    ∙ ap (λ c. foldl (λ c' o. count o c') c (outcomes more (process now event i).0))
        (process-Counts now event i)
