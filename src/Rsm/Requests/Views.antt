-- ===== src/Rsm/Requests/Views.antt =====
-- src/rsm/ingest.py: the pipeline, seen at each request.
use mathlib.Core.Path.{subst}
use absolute_zero.Prelude.{
  ℕ, String, ◌≡◌, refl, sym, ap, ◌∙◌, inl, inr, Bool, true, false, Option, none, some, [], ◌∷◌,
  ◌++◌, elem, length, arith, str_eq, eq_iff, eq_refl, Bool-cases, Option-cases, if◌then◌else◌,
}
use absolute_zero.Prelude.Dict
use absolute_zero.Prelude.Dict.{Dict, get-put}
use absolute_zero.Rsm.Record.{RequestRecord, birth}
use absolute_zero.Rsm.Transitions.{
  State, Action, absent, active, terminal, create, apply, apply_terminal, fault, drop, unregistered,
  lookup, row_of, persisted, retained, evicted, birth_family, terminal_families,
  late_tolerant_families, registered_families, row,
}
use absolute_zero.Rsm.Journal.{Journal, Entry, ids, entries, has, append}
use absolute_zero.Rsm.Reducers.{
  Event, Reducer, Result, Result-Cases, is_ok, is_fault, is_crash, ok, fault_of, crashed,
  birth_reducer, reducer_of,
}
use absolute_zero.Rsm.Store
use absolute_zero.Rsm.Store.{Store, state_of, get_record, is_absent, is_active, plant}
use absolute_zero.Rsm.Store.Reads.{Reads, create-Reads, apply-Reads, apply_terminal-Reads}
use absolute_zero.Rsm.Telemetry.{FaultReason, reducer_fault, envelope_malformed}
use absolute_zero.Rsm.Ingest.{
  Ingest, Outcome, applied, faulted, names_of, record_fault, record_applied, stored, give_birth,
  keep, fold, act, process_named, process,
}
use absolute_zero.Rsm.Requests.{
  View, view, grown, folded, born, fold_event, fold_current, act_on, accept, serve,
}

-- What a step of the pipeline does: the view of `r` and the outcome, and every other view.
abbrev pub Serves : String → Ingest → Ingest × Outcome → View × Outcome → Type 0
Serves r i out spec =
    (view r out.0 ≡ spec.0)
    × (out.1 ≡ spec.1)
    × ((q : String) → str_eq r q ≡ false → view q out.0 ≡ view q i)

-- Nothing of the store or of the journal is changed.
record_fault-Serves :
    (r : String) (a b : Option String) (reason : Option FaultReason) (now : ℕ) (i : Ingest)
    → Serves r i (record_fault a b reason now i) (view r i, faulted)
unfolding record_fault view
record_fault-Serves r a b reason now i = (refl, refl, λ q other. refl)

pub append-ids :
    (r e : String) (v : ℕ) (j : Journal)
    → has r e j ≡ false
    → (j' : Journal) × (append r e v j ≡ some (length (entries r j), j'))
      × (ids r j' ≡ ids r j ++ e ∷ [])
      × (entries r j'
          ≡ entries r j
            ++ record { event_id = e; seq = length (entries r j); reducer_version = v } ∷ [])
      × ((q : String) → str_eq r q ≡ false → ids q j' ≡ ids q j)
      × ((q : String) → str_eq r q ≡ false → entries q j' ≡ entries q j)
unfolding append ids entries has
append-ids r e v j new =
    let entry : Entry = record { event_id = e; seq = length (entries r j); reducer_version = v } in
    let j' : Journal = record {
      all_entries = Dict.put r (entries r j ++ entry ∷ []) j.all_entries;
      all_ids = Dict.put r (ids r j ++ e ∷ []) j.all_ids;
    } in
    (
      j',
      rw new refl,
      ground (arith, get-put r r (ids r j ++ e ∷ []) j.all_ids, eq_refl r),
      ground (arith, get-put r r (entries r j ++ entry ∷ []) j.all_entries, eq_refl r),
      λ q other. ground (arith, get-put r q (ids r j ++ e ∷ []) j.all_ids),
      λ q other. ground (arith, get-put r q (entries r j ++ entry ∷ []) j.all_entries),
    )

stored-Serves :
    (r e family : String) (immediate : Bool) (now : ℕ) (st : State) (new : RequestRecord)
    (s' : Store) (i : Ingest)
    → has r e i.journal ≡ false
    → Reads r st new i.store s'
    → Serves r i (stored r e family immediate now (some s') i) (grown e st new (view r i), applied)
unfolding stored record_applied view
stored-Serves r e family immediate now st new s' i fresh reads =
    let (j', done, ids_here, log_here, ids_there, log_there) = append-ids r e 1 i.journal fresh in
    rw (done, stored, record_applied, reads.state_here, reads.record_here, ids_here, log_here)
      (
        refl,
        refl,
        λ q other.
            rw
              (
                reads.state_there q other,
                reads.record_there q other,
                ids_there q other,
                log_there q other,
              )
              refl,
      )

give_birth-Serves :
    (r e family : String) (event : Event) (now : ℕ) (i : Ingest)
    → has r e i.journal ≡ false
    → is_absent (state_of r i.store) ≡ true
    → Serves r i (give_birth r e family event now i) (born r e (birth_reducer event) (view r i))
unfolding give_birth
give_birth-Serves r e family event now i fresh unborn = elim (Result-Cases (birth_reducer event)) [
  | is_crash c ↦ rw (c, give_birth) (refl, refl, λ q other. refl)
  | is_ok f c ↦
      let s' = plant r (birth r f) i.store in
      let made : Store.create r f i.store ≡ some s' = rw unborn refl in
      rw (c, made, give_birth)
        (stored-Serves r e family true now active (birth r f) s' i fresh
          (create-Reads r f i.store unborn))
  | is_fault reason c ↦
      rw (c, give_birth)
        (record_fault-Serves r (some r) (some family) (some (reducer_fault reason)) now i)
]

keep-Serves :
    (r e family : String) (ends : Bool) (st : State) (now : ℕ) (result : Result RequestRecord)
    (current : RequestRecord) (i : Ingest)
    → has r e i.journal ≡ false
    → get_record r i.store ≡ some current
    → (ends ≡ true → is_active (state_of r i.store) ≡ true)
    → st ≡ (if ends then terminal else state_of r i.store)
    → Serves r i (keep r e family ends now result i) (folded e st result (view r i))
unfolding keep
keep-Serves r e family ends st now crashed current i fresh live open' next =
    (refl, refl, λ q other. refl)
keep-Serves r e family ends st now (fault_of reason) current i fresh live open' next =
    record_fault-Serves r (some r) (some family) (some (reducer_fault reason)) now i
keep-Serves r e family true st now (ok new) current i fresh live open' next =
    let (s', made, reads) = apply_terminal-Reads r new i.store (open' refl) in
    rw (made, next) (stored-Serves r e family true now terminal new s' i fresh reads)
keep-Serves r e family false st now (ok new) current i fresh live open' next =
    let (s', made, reads) = apply-Reads r new current i.store live in
    rw (made, next) (stored-Serves r e family false now (state_of r i.store) new s' i fresh reads)

view_current : (r : String) (i : Ingest) → (view r i).current ≡ get_record r i.store
unfolding view
view_current r i = refl

fold-Serves :
    (r e family : String) (ends : Bool) (st : State) (event : Event) (now : ℕ) (i : Ingest)
    → has r e i.journal ≡ false
    → (ends ≡ true → is_active (state_of r i.store) ≡ true)
    → st ≡ (if ends then terminal else state_of r i.store)
    → Serves r i (fold r e family ends event now i) (fold_event e family st event (view r i))
unfolding fold fold_event
fold-Serves r e family ends st event now i fresh open' next =
    elim (Option-cases (reducer_of family)) [
      | inl none' ↦ rw (none', fold, fold_event) (refl, refl, λ q other. refl)
      | inr (reducer, found) ↦ elim (Option-cases (get_record r i.store)) [
        | inl gone ↦
            subst (Serves r i (fold r e family ends event now i))
              (sym (spec reducer found none gone))
              (rw (found, gone, fold) (refl, refl, λ q other. refl))
        | inr (current, live) ↦
            subst (Serves r i (fold r e family ends event now i))
              (sym (spec reducer found (some current) live))
              (rw (found, live, fold)
                (keep-Serves r e family ends st now (reducer current event) current i fresh live
                  open' next))
      ]
    ]
  where
    spec :
        (reducer : Reducer)
        → reducer_of family ≡ some reducer
        → (o : Option RequestRecord) → get_record r i.store ≡ o
        → fold_event e family st event (view r i) ≡ fold_current reducer e st event (view r i) o
    spec reducer found o h =
        rw (found, fold_event)
          (ap (fold_current reducer e st event (view r i)) (view_current r i ∙ h))

-- The rows that create and that end a request are rows of the right states.
abbrev pub Fits : Action → State → Type 0
Fits create s = is_absent s ≡ true
Fits apply_terminal s = is_active s ≡ true
Fits _ s = Unit

late_row :
    (s : State) (is_birth tolerant : Bool)
    → Fits
        (if is_birth then row fault s else if tolerant then row apply s else row fault s).action
        s
late_row s true tolerant = tt
late_row s false true = tt
late_row s false false = tt

row_of-Fits : (s : State) (family : String) → Fits (row_of s family false).action s
unfolding row_of
row_of-Fits absent family = elim (Bool-cases (str_eq family birth_family)) [
  | inl same ↦ rw (same, row_of) refl
  | inr other ↦ rw (other, row_of) tt
]
row_of-Fits active family = elim (Bool-cases (str_eq family birth_family)) [
  | inl same ↦ rw (same, row_of) tt
  | inr other ↦ elim (Bool-cases (elem family terminal_families)) [
    | inl ends ↦ rw (other, ends, row_of) refl
    | inr goes ↦ rw (other, goes, row_of) tt
  ]
]
row_of-Fits terminal family =
    late_row terminal (str_eq family birth_family) (elem family late_tolerant_families)
row_of-Fits persisted family =
    late_row persisted (str_eq family birth_family) (elem family late_tolerant_families)
row_of-Fits retained family =
    late_row retained (str_eq family birth_family) (elem family late_tolerant_families)
row_of-Fits evicted family = tt

pub lookup-Fits : (s : State) (family : String) → Fits (lookup s family false false).action s
unfolding lookup
lookup-Fits s family = elim (Bool-cases (elem family registered_families)) [
  | inl known ↦ rw (known, lookup) (row_of-Fits s family)
  | inr other ↦ rw (other, lookup) tt
]

act-Serves :
    (a : Action) (r e family : String) (event : Event) (now : ℕ) (i : Ingest)
    → has r e i.journal ≡ false
    → Fits a (state_of r i.store)
    → Serves r i (act a r e family event now i) (act_on a r e family event (view r i))
unfolding act act_on view
act-Serves unregistered r e family event now i fresh fits = (refl, refl, λ q other. refl)
act-Serves fault r e family event now i fresh fits =
    record_fault-Serves r (some r) (some family) none now i
act-Serves create r e family event now i fresh fits =
    give_birth-Serves r e family event now i fresh fits
act-Serves apply_terminal r e family event now i fresh fits =
    fold-Serves r e family true terminal event now i fresh (λ h. fits) refl
act-Serves apply r e family event now i fresh fits =
    fold-Serves r e family false (state_of r i.store) event now i fresh (λ h. absurd (cc h)) refl
act-Serves drop r e family event now i fresh fits =
    fold-Serves r e family false (state_of r i.store) event now i fresh (λ h. absurd (cc h)) refl

pub process_named-Serves :
    (r e family : String) (event : Event) (now : ℕ) (i : Ingest)
    → Serves r i (process_named r e family event now i) (accept r e family event (view r i))
unfolding process_named accept has view
process_named-Serves r e family event now i = elim (Bool-cases (has r e i.journal)) [
  | inl again ↦ rw (again, process_named, accept) (refl, refl, λ q other. refl)
  | inr fresh ↦
      rw (fresh, process_named, accept)
        (act-Serves (lookup (state_of r i.store) family false false).action r e family event now i
          fresh (lookup-Fits (state_of r i.store) family))
]

-- For every request, what `process` makes of the state and the record that the store holds of it
-- and of its entries in the journal is what the machine of that request, the table of transitions
-- with the reducers, makes of them; an event of one request changes nothing of another.
pub process-view :
    (now : ℕ) (event : Event) (i : Ingest) (q : String)
    → view q (process now event i).0 ≡ serve q event (view q i)
unfolding process serve
process-view now event i q = elim (Option-cases (names_of event)) [
  | inl unnamed ↦
      rw (unnamed, process, serve)
        (record_fault-Serves q none none (some envelope_malformed) now i).0
  | inr ((r, e, family), named) ↦ elim (Bool-cases (str_eq r q)) [
    | inl same ↦
        rw (named, process, serve, same)
          (subst
            (λ p.
              view p (process_named r e family event now i).0
              ≡ (accept r e family event (view p i)).0)
            ((eq_iff r q).0 same) (process_named-Serves r e family event now i).0)
    | inr other ↦
        rw (named, process, serve, other) ((process_named-Serves r e family event now i).2 q other)
  ]
]
