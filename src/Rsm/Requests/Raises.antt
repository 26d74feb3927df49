-- ===== src/Rsm/Requests/Raises.antt =====
-- src/rsm/ingest.py: the exceptions that leave the pipeline.
use absolute_zero.Prelude.{
  ℕ, String, ◌≡◌, ◌⊎◌, refl, sym, ap, ◌∙◌, inl, inr, Bool, true, false, Option, none, some, List,
  ◌||◌, elem, arith, str_eq, is_some, Bool-cases, Option-cases, if◌then◌else◌,
}
use absolute_zero.Value.{Fields}
use absolute_zero.Rsm.Transitions.{
  State, absent, active, terminal, persisted, retained, evicted, Action, create, apply,
  apply_terminal, fault, drop, unregistered, lookup, row_of, row, birth_family, terminal_families,
  late_tolerant_families, registered_families,
}
use absolute_zero.Rsm.Reducers.{
  Event, Reducer, Result, ok, fault_of, crashed, birth_reducer, reducer_of,
}
use absolute_zero.Rsm.Record.{RequestRecord}
use absolute_zero.Rsm.Registry.{registry_complete}
use absolute_zero.Rsm.Ingest.{raised, names_of, process}
use absolute_zero.Rsm.Store.{get_record}
use absolute_zero.Rsm.Telemetry.{Telemetry}
use absolute_zero.Rsm.Requests.{View, view, accept, act_on, fold_event, fold_current, folded, born}
use absolute_zero.Rsm.Requests.Kept.{is_live, started, requests-IsKept}
use absolute_zero.Rsm.Requests.Views.{process_named-Serves}
use absolute_zero.Rsm.Requests.Steps.{Call, perform_all}

-- A row that folds has a record to fold and a reducer to fold it with.
abbrev Foldable : Action → State → String → Type 0
Foldable apply s family = (is_live s ≡ true) × (is_some (reducer_of family) ≡ true)
Foldable apply_terminal s family = (is_live s ≡ true) × (is_some (reducer_of family) ≡ true)
Foldable drop s family = true ≡ false
Foldable _ s family = Unit

has_reducer :
    (family : String)
    → elem family registered_families ≡ true
    → str_eq family birth_family ≡ false
    → is_some (reducer_of family) ≡ true
has_reducer family known other =
    sym (ap (λ b. b || is_some (reducer_of family)) other)
    ∙ sym (registry_complete family).0
    ∙ known

late-Foldable :
    (s : State) (family : String) (b t : Bool)
    → is_live s ≡ true
    → (b ≡ false → is_some (reducer_of family) ≡ true)
    → Foldable (if b then row fault s else if t then row apply s else row fault s).action s family
late-Foldable s family true t live found = tt
late-Foldable s family false true live found = (live, found refl)
late-Foldable s family false false live found = tt

row_of-Foldable :
    (s : State) (family : String)
    → elem family registered_families ≡ true
    → Foldable (row_of s family false).action s family
unfolding row_of
row_of-Foldable evicted family known = tt
row_of-Foldable absent family known = elim (Bool-cases (str_eq family birth_family)) [
  | inl same ↦ rw (same, row_of) tt
  | inr other ↦ rw (other, row_of) tt
]
row_of-Foldable active family known = elim (Bool-cases (str_eq family birth_family)) [
  | inl same ↦ rw (same, row_of) tt
  | inr other ↦ elim (Bool-cases (elem family terminal_families)) [
    | inl ends ↦ rw (other, ends, row_of) (refl, has_reducer family known other)
    | inr goes ↦ rw (other, goes, row_of) (refl, has_reducer family known other)
  ]
]
row_of-Foldable terminal family known =
    late-Foldable terminal family (str_eq family birth_family) (elem family late_tolerant_families)
      refl (has_reducer family known)
row_of-Foldable persisted family known =
    late-Foldable persisted family (str_eq family birth_family) (elem family late_tolerant_families)
      refl (has_reducer family known)
row_of-Foldable retained family known =
    late-Foldable retained family (str_eq family birth_family) (elem family late_tolerant_families)
      refl (has_reducer family known)

lookup-Foldable :
    (s : State) (family : String) → Foldable (lookup s family false false).action s family
unfolding lookup
lookup-Foldable s family = elim (Bool-cases (elem family registered_families)) [
  | inl known ↦ rw (known, lookup) (row_of-Foldable s family known)
  | inr other ↦ rw (other, lookup) tt
]

-- A TypeError of the birth reducer, or of the reducer of the family at the record.
abbrev pub Crashes : String → Event → Option RequestRecord → Type 0
Crashes family event current =
    (birth_reducer event ≡ crashed)
    ⊎ ((reducer : Reducer) × (c : RequestRecord) × (reducer_of family ≡ some reducer)
        × (current ≡ some c)
        × (reducer c event ≡ crashed))

fold-raises :
    (e family : String) (s : State) (event : Event) (v : View)
    → is_some v.current ≡ true
    → is_some (reducer_of family) ≡ true
    → (fold_event e family s event v).1 ≡ raised
    → Crashes family event v.current
unfolding fold_event
fold-raises e family s event v live known h = elim (Option-cases (reducer_of family)) [
  | inl none' ↦ absurd (ground arith)
  | inr (reducer, found) ↦
      let same : fold_event e family s event v ≡ fold_current reducer e s event v v.current =
        rw (found, fold_event) refl in
      by_current reducer v.current found refl live (sym (ap (λ x. x.1) same) ∙ h)
]
  where
    by_result : (x : Result RequestRecord) → (folded e s x v).1 ≡ raised → x ≡ crashed
    by_result (ok new) r = absurd (cc r)
    by_result (fault_of reason) r = absurd (cc r)
    by_result crashed r = refl

    by_current :
        (reducer : Reducer) (o : Option RequestRecord)
        → reducer_of family ≡ some reducer
        → v.current ≡ o
        → is_some o ≡ true
        → (fold_current reducer e s event v o).1 ≡ raised
        → Crashes family event v.current
    by_current reducer none found at there r = absurd (cc there)
    by_current reducer (some c) found at there r =
        inr (reducer, c, found, at, by_result (reducer c event) r)

act_on-raises :
    (a : Action) (r e family : String) (event : Event) (v : View)
    → Foldable a v.state family
    → is_some v.current ≡ is_live v.state
    → (act_on a r e family event v).1 ≡ raised
    → Crashes family event v.current
unfolding act_on
act_on-raises unregistered r e family event v fits live h = absurd (cc h)
act_on-raises fault r e family event v fits live h = absurd (cc h)
act_on-raises create r e family event v fits live h = inl (by_birth (birth_reducer event) h)
  where
    by_birth : (x : Result Fields) → (born r e x v).1 ≡ raised → x ≡ crashed
    by_birth (ok fields) b = absurd (cc b)
    by_birth (fault_of reason) b = absurd (cc b)
    by_birth crashed b = refl
act_on-raises apply_terminal r e family event v fits live h =
    fold-raises e family terminal event v (live ∙ fits.0) fits.1 h
act_on-raises apply r e family event v fits live h =
    fold-raises e family v.state event v (live ∙ fits.0) fits.1 h
act_on-raises drop r e family event v fits live h = absurd (cc fits)

accept-raises :
    (r e family : String) (event : Event) (v : View)
    → is_some v.current ≡ is_live v.state
    → (accept r e family event v).1 ≡ raised
    → Crashes family event v.current
unfolding accept
accept-raises r e family event v live h = elim (Bool-cases (elem e v.seen)) [
  | inl again ↦ absurd (ground arith)
  | inr fresh ↦
      let a = (lookup v.state family false false).action in
      let same : accept r e family event v ≡ act_on a r e family event v =
        rw (fresh, accept) refl in
      act_on-raises a r e family event v (lookup-Foldable v.state family) live
        (sym (ap (λ x. x.1) same) ∙ h)
]

-- After any calls on a new store and a new journal, an event makes `process` raise only by a
-- TypeError of a reducer over the payload: never for a family without a reducer, a record that is
-- missing, or a write that the store or the journal refuses.
pub process-raises :
    (cs : List Call) (t : Option Telemetry) (now : ℕ) (event : Event) (r e family : String)
    → names_of event ≡ some (r, e, family)
    → (process now event (perform_all cs (started t))).1 ≡ raised
    → Crashes family event (get_record r (perform_all cs (started t)).store)
unfolding process view
process-raises cs t now event r e family named h =
    let i = perform_all cs (started t) in
    let outcome : (process now event i).1 ≡ (accept r e family event (view r i)).1 =
      rw (named, process) (process_named-Serves r e family event now i).1 in
    accept-raises r e family event (view r i) (requests-IsKept cs t r).materialized
      (sym outcome ∙ h)
