-- ===== src/Rsm/Store/Earned.antt =====
-- src/rsm/store.py and src/rsm/ingest.py: when the gate of the eviction opens, told by the calls.
use mathlib.Core.Path.{subst}
use absolute_zero.Prelude.{
  ℕ, ◌+◌, ◌≤◌, String, ◌≡◌, refl, sym, ap, ◌∙◌, inl, inr, Bool, true, false, Option, none, some,
  List, [], ◌∷◌, ◌++◌, append_assoc, append-nil, arith, str_eq, eq_iff, or_else, ◌&&◌, Bool-cases,
  Option-cases, if◌then◌else◌,
}
use absolute_zero.Prelude.Dict
use absolute_zero.Prelude.Dict.{get-put, get-remove}
use absolute_zero.Value.{Fields}
use absolute_zero.Rsm.Record.{RequestRecord}
use absolute_zero.Rsm.Journal.{append, has}
use absolute_zero.Rsm.Transitions.{
  evicted, Action, unregistered, fault, create, apply_terminal, apply, drop, lookup,
}
use absolute_zero.Rsm.Reducers.{
  Event, Result, ok, fault_of, crashed, birth_reducer, reducer_of, Result-Cases, is_ok, is_fault,
  is_crash,
}
use absolute_zero.Rsm.Store
use absolute_zero.Rsm.Store.{
  Store, state_of, get_record, is_absent, is_active, is_terminal, mark_persisted, mark_evicted,
  evict_gate, retention_elapsed,
}
use absolute_zero.Rsm.Telemetry.{Telemetry}
use absolute_zero.Rsm.Ingest.{
  Ingest, record_applied, stored, give_birth, keep, fold, act, process_named, names_of, process,
}
use absolute_zero.Rsm.Requests.{view}
use absolute_zero.Rsm.Requests.Kept.{started}
use absolute_zero.Rsm.Requests.Steps.{Call, processing, persisting, evicting, perform, perform_all}
use absolute_zero.Rsm.Store.Eviction.{evict_gate_iff, evicting-Gone}

-- The times at which the requests were persisted stay.
abbrev Timed : Store → Store → Type 0
Timed s s' = s'.persisted_at ≡ s.persisted_at

abbrev TimedIf : Store → Option Store → Type 0
TimedIf s none = Unit
TimedIf s (some s') = Timed s s'

create-Timed : (r : String) (fields : Fields) (s : Store) → TimedIf s (Store.create r fields s)
unfolding Store.create
create-Timed r fields s = elim (Bool-cases (is_absent (state_of r s))) [
  | inl free ↦ rw (free, Store.create) refl
  | inr taken ↦ rw (taken, Store.create) tt
]

apply-Timed : (r : String) (new : RequestRecord) (s : Store) → TimedIf s (Store.apply r new s)
unfolding Store.apply
apply-Timed r new s = elim (Bool-cases (Dict.contains r s.active_records)) [
  | inl here ↦ rw (here, Store.apply) refl
  | inr gone ↦ elim (Bool-cases (Dict.contains r s.retained_records)) [
    | inl kept ↦ rw (gone, kept, Store.apply) refl
    | inr lost ↦ rw (gone, lost, Store.apply) tt
  ]
]

apply_terminal-Timed :
    (r : String) (new : RequestRecord) (s : Store) → TimedIf s (Store.apply_terminal r new s)
unfolding Store.apply_terminal
apply_terminal-Timed r new s = elim (Bool-cases (is_active (state_of r s))) [
  | inl live ↦ rw (live, Store.apply_terminal) refl
  | inr over ↦ rw (over, Store.apply_terminal) tt
]

stored-Timed :
    (r e family : String) (immediate : Bool) (now : ℕ) (o : Option Store) (i : Ingest)
    → TimedIf i.store o
    → Timed i.store (stored r e family immediate now o i).0.store
unfolding stored record_applied
stored-Timed r e family immediate now none i h = refl
stored-Timed r e family immediate now (some s) i h = elim (Option-cases (append r e 1 i.journal)) [
  | inl again ↦ rw (again, stored, record_applied) h
  | inr ((seq, j), fresh) ↦ rw (fresh, stored, record_applied) h
]

give_birth-Timed :
    (r e family : String) (event : Event) (now : ℕ) (i : Ingest)
    → Timed i.store (give_birth r e family event now i).0.store
unfolding give_birth
give_birth-Timed r e family event now i = elim (Result-Cases (birth_reducer event)) [
  | is_crash c ↦ rw (c, give_birth) refl
  | is_fault reason c ↦ rw (c, give_birth) refl
  | is_ok fields c ↦
      rw (c, give_birth)
        (stored-Timed r e family true now (Store.create r fields i.store) i
          (create-Timed r fields i.store))
]

keep-Timed :
    (r e family : String) (ends : Bool) (now : ℕ) (x : Result RequestRecord) (i : Ingest)
    → Timed i.store (keep r e family ends now x i).0.store
unfolding keep
keep-Timed r e family ends now crashed i = refl
keep-Timed r e family ends now (fault_of reason) i = refl
keep-Timed r e family true now (ok new) i =
    stored-Timed r e family true now (Store.apply_terminal r new i.store) i
      (apply_terminal-Timed r new i.store)
keep-Timed r e family false now (ok new) i =
    stored-Timed r e family false now (Store.apply r new i.store) i (apply-Timed r new i.store)

fold-Timed :
    (r e family : String) (ends : Bool) (event : Event) (now : ℕ) (i : Ingest)
    → Timed i.store (fold r e family ends event now i).0.store
unfolding fold
fold-Timed r e family ends event now i = elim (Option-cases (reducer_of family)) [
  | inl none' ↦ rw (none', fold) refl
  | inr (reducer, found) ↦ elim (Option-cases (get_record r i.store)) [
    | inl gone ↦ rw (found, gone, fold) refl
    | inr (current, here) ↦
        rw (found, here, fold) (keep-Timed r e family ends now (reducer current event) i)
  ]
]

act-Timed :
    (a : Action) (r e family : String) (event : Event) (now : ℕ) (i : Ingest)
    → Timed i.store (act a r e family event now i).0.store
unfolding act
act-Timed unregistered r e family event now i = refl
act-Timed fault r e family event now i = refl
act-Timed create r e family event now i = give_birth-Timed r e family event now i
act-Timed apply_terminal r e family event now i = fold-Timed r e family true event now i
act-Timed apply r e family event now i = fold-Timed r e family false event now i
act-Timed drop r e family event now i = fold-Timed r e family false event now i

-- No event persists a request.
process-Timed : (now : ℕ) (event : Event) (i : Ingest) → Timed i.store (process now event i).0.store
unfolding process process_named
process-Timed now event i = elim (Option-cases (names_of event)) [
  | inl unnamed ↦ rw (unnamed, process) refl
  | inr ((r, e, family), named) ↦ elim (Bool-cases (has r e i.journal)) [
    | inl again ↦ rw (named, again, process, process_named) refl
    | inr fresh ↦
        rw (named, fresh, process, process_named)
          (act-Timed (lookup (state_of r i.store) family false false).action r e family event now i)
  ]
]

-- Among the calls from the start, a granted one has persisted the request at the time `at`.
pub record Persisted (t : Option Telemetry) (r : String) (cs : List Call) (at : ℕ) : Type 0 where
  pub before : List Call
  pub after : List Call
  pub split : cs ≡ before ++ persisting r at ∷ after
  pub ended : is_terminal (state_of r (perform_all before (started t)).store) ≡ true

abbrev Told : Option Telemetry → String → List Call → Ingest → Type 0
Told t r cs i = (at : ℕ) → Dict.get r i.store.persisted_at ≡ some at → Persisted t r cs at

later-Persisted :
    (t : Option Telemetry) (r : String) (cs : List Call) (c : Call) (at : ℕ)
    → Persisted t r cs at
    → Persisted t r (cs ++ c ∷ []) at
later-Persisted t r cs c at h = record {
  before = h.before;
  after = h.after ++ c ∷ [];
  split =
      ap (λ xs. xs ++ c ∷ []) h.split ∙ append_assoc h.before (persisting r at ∷ h.after) (c ∷ []);
  ended = h.ended;
}

evict_gate-keeps :
    (q r : String) (now window at : ℕ) (s : Store)
    → Dict.get r (evict_gate q now window s).1.persisted_at ≡ some at
    → Dict.get r s.persisted_at ≡ some at
unfolding evict_gate mark_evicted
evict_gate-keeps q r now window at s h = ground (arith, get-remove q r s.persisted_at)

persisted_at-persisting :
    (q r : String) (now : ℕ) (i : Ingest)
    → Dict.get r (perform (persisting q now) i).store.persisted_at ≡ (
        if is_terminal (state_of q i.store) && str_eq q r
        then some now
        else Dict.get r i.store.persisted_at)
unfolding perform mark_persisted
persisted_at-persisting q r now i = elim (Bool-cases (is_terminal (state_of q i.store))) [
  | inr open' ↦ rw (open', perform, mark_persisted) refl
  | inl over ↦ rw (over, perform, mark_persisted) (get-put q r now i.store.persisted_at)
]

persisting-Told :
    (t : Option Telemetry) (q r : String) (now : ℕ) (cs : List Call)
    → let i = perform_all cs (started t) in
      Told t r cs i → Told t r (cs ++ persisting q now ∷ []) (perform (persisting q now) i)
persisting-Told t q r now cs told at h =
    let i = perform_all cs (started t) in
    let now_or_before = sym (persisted_at-persisting q r now i) ∙ h in
    elim (Bool-cases (is_terminal (state_of q i.store))) [
      | inr open' ↦
          later-Persisted t r cs (persisting q now) at (told at (rw open' at now_or_before))
      | inl over ↦ elim (Bool-cases (str_eq q r)) [
        | inr other ↦
            later-Persisted t r cs (persisting q now) at
              (told at (rw (over, other) at now_or_before))
        | inl same ↦
            let here : now ≡ at = ap (λ o. or_else o now) (rw (over, same) at now_or_before) in
            subst (λ n. Persisted t r (cs ++ persisting q now ∷ []) n) here
              (subst (λ p. Persisted t p (cs ++ persisting q now ∷ []) now) ((eq_iff q r).0 same)
                (record { before = cs; after = []; split = refl; ended = over }))
      ]
    ]

perform-Told :
    (t : Option Telemetry) (r : String) (cs : List Call) (c : Call)
    → let i = perform_all cs (started t) in Told t r cs i → Told t r (cs ++ c ∷ []) (perform c i)
unfolding perform
perform-Told t r cs (persisting q now) told = persisting-Told t q r now cs told
perform-Told t r cs (evicting q now window) told =
    let i = perform_all cs (started t) in
    λ at h.
      later-Persisted t r cs (evicting q now window) at
        (told at (evict_gate-keeps q r now window at i.store h))
perform-Told t r cs (processing now event) told =
    let i = perform_all cs (started t) in
    λ at h.
      later-Persisted t r cs (processing now event) at
        (told at (ap (Dict.get r) (sym (process-Timed now event i)) ∙ h))

perform_all-snoc :
    (cs : List Call) (c : Call) (i : Ingest)
    → perform_all (cs ++ c ∷ []) i ≡ perform c (perform_all cs i)
unfolding perform_all
perform_all-snoc [] c i = refl
perform_all-snoc (d ∷ cs) c i = perform_all-snoc cs c (perform d i)

calls-Told :
    (t : Option Telemetry) (r : String) (cs more : List Call)
    → Told t r cs (perform_all cs (started t))
    → Told t r (cs ++ more) (perform_all (cs ++ more) (started t))
calls-Told t r cs [] told =
    subst (λ xs. Told t r xs (perform_all xs (started t))) (sym (append-nil cs)) told
calls-Told t r cs (c ∷ more) told =
    subst (λ xs. Told t r xs (perform_all xs (started t))) (append_assoc cs (c ∷ []) more)
      (calls-Told t r (cs ++ c ∷ []) more (
        subst (Told t r (cs ++ c ∷ [])) (sym (perform_all-snoc cs c (started t)))
          (perform-Told t r cs c told)))

start-Told : (t : Option Telemetry) (r : String) → Told t r [] (perform_all [] (started t))
unfolding perform_all Dict.get
start-Told t r at h = absurd (cc h)

-- Whatever was done before, the gate evicts a request only if, among the calls from the start, there is
-- one that persisted it when it was terminal, at a time since which the retention window has passed;
-- and when the gate answers True, the request is evicted and its record is gone.
pub eviction-earned :
    (t : Option Telemetry) (cs : List Call) (r : String) (now window : ℕ)
    → let i = perform_all cs (started t) in
      (evict_gate r now window i.store).0 ≡ true
      → ((at : ℕ) × Persisted t r cs at × (at + window ≤ now))
        × (state_of r (perform (evicting r now window) i).store ≡ evicted)
        × (get_record r (perform (evicting r now window) i).store ≡ none)
unfolding view
eviction-earned t cs r now window opens =
    let i = perform_all cs (started t) in
    let (over, (at, found, late)) = (evict_gate_iff r now window i.store).0.0 opens in
    let gone = evicting-Gone r now window i opens in
    ((at, calls-Told t r [] cs (start-Told t r) at found, late), gone.0, gone.1)
