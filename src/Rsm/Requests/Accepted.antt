-- ===== src/Rsm/Requests/Accepted.antt =====
-- src/rsm/ingest.py: the ways in which an event of a request can end.
use mathlib.Core.Path.{subst}
use absolute_zero.Prelude.{
  eq_iff, sym, String, ◌≡◌, ◌≢◌, ◌⊎◌, refl, inl, inr, true, false, Option, none, some, elem, str_eq,
  Bool-cases, Option-cases,
}
use absolute_zero.Value.{Fields}
use absolute_zero.Rsm.Transitions.{
  State, active, terminal, Action, create, apply, apply_terminal, fault, drop, unregistered, lookup,
}
use absolute_zero.Rsm.Reducers.{
  Event, Reducer, Result, ok, fault_of, crashed, Result-Cases, is_ok, is_fault, is_crash,
  birth_reducer, reducer_of,
}
use absolute_zero.Rsm.Record.{RequestRecord, birth}
use absolute_zero.Rsm.Store.{is_absent, is_active}
use absolute_zero.Rsm.Ingest.{
  Outcome, applied, dropped, faulted, unregistered_out, raised, names_of,
}
use absolute_zero.Rsm.Requests.{
  View, grown, serve, accept, act_on, fold_event, fold_current, folded, born,
}
use absolute_zero.Rsm.Requests.Views.{Fits, lookup-Fits}

-- Nothing is changed, or the request is born, or a reducer has folded the event into its record.
pub data Accepted (r e : String) (v : View) : View × Outcome → Type 0 where
  unmoved : (o : Outcome) → o ≢ applied → Accepted r e v (v, o)
  births :
      (fields : Fields)
      → elem e v.seen ≡ false
      → is_absent v.state ≡ true
      → Accepted r e v (grown e active (birth r fields) v, applied)
  folds :
      (family : String) (reducer : Reducer) (event : Event) (current new : RequestRecord)
      (s : State)
      → elem e v.seen ≡ false
      → reducer_of family ≡ some reducer
      → v.current ≡ some current
      → reducer current event ≡ ok new
      → (s ≡ v.state) ⊎ ((is_active v.state ≡ true) × (s ≡ terminal))
      → Accepted r e v (grown e s new v, applied)

fold_event-Accepted :
    (r e family : String) (s : State) (event : Event) (v : View)
    → elem e v.seen ≡ false
    → (s ≡ v.state) ⊎ ((is_active v.state ≡ true) × (s ≡ terminal))
    → Accepted r e v (fold_event e family s event v)
unfolding fold_event
fold_event-Accepted r e family s event v fresh next = elim (Option-cases (reducer_of family)) [
  | inl none' ↦ rw (none', fold_event) (unmoved raised (λ h. cc h))
  | inr (reducer, found) ↦ rw (found, fold_event) (by_current reducer v.current found refl)
]
  where
    by_result :
        (reducer : Reducer) (current : RequestRecord)
        → reducer_of family ≡ some reducer
        → v.current ≡ some current
        → Accepted r e v (folded e s (reducer current event) v)
    by_result reducer current found live = elim (Result-Cases (reducer current event)) [
      | is_ok new c ↦ rw c (folds family reducer event current new s fresh found live c next)
      | is_fault reason c ↦ rw c (unmoved faulted (λ h. cc h))
      | is_crash c ↦ rw c (unmoved raised (λ h. cc h))
    ]

    by_current :
        (reducer : Reducer) (o : Option RequestRecord)
        → reducer_of family ≡ some reducer
        → v.current ≡ o
        → Accepted r e v (fold_current reducer e s event v o)
    by_current reducer none found gone = unmoved raised (λ h. cc h)
    by_current reducer (some current) found live = by_result reducer current found live

act_on-Accepted :
    (a : Action) (r e family : String) (event : Event) (v : View)
    → elem e v.seen ≡ false
    → Fits a v.state
    → Accepted r e v (act_on a r e family event v)
unfolding act_on
act_on-Accepted unregistered r e family event v fresh fits = unmoved unregistered_out (λ h. cc h)
act_on-Accepted fault r e family event v fresh fits = unmoved faulted (λ h. cc h)
act_on-Accepted create r e family event v fresh fits = born_accepted (birth_reducer event)
  where
    born_accepted : (x : Result Fields) → Accepted r e v (born r e x v)
    born_accepted (ok fields) = births fields fresh fits
    born_accepted (fault_of reason) = unmoved faulted (λ h. cc h)
    born_accepted crashed = unmoved raised (λ h. cc h)
act_on-Accepted apply_terminal r e family event v fresh fits =
    fold_event-Accepted r e family terminal event v fresh (inr (fits, refl))
act_on-Accepted apply r e family event v fresh fits =
    fold_event-Accepted r e family v.state event v fresh (inl refl)
act_on-Accepted drop r e family event v fresh fits =
    fold_event-Accepted r e family v.state event v fresh (inl refl)

pub accept-Accepted :
    (r e family : String) (event : Event) (v : View) → Accepted r e v (accept r e family event v)
unfolding accept
accept-Accepted r e family event v = elim (Bool-cases (elem e v.seen)) [
  | inl again ↦ rw (again, accept) (unmoved dropped (λ h. cc h))
  | inr fresh ↦
      rw (fresh, accept)
        (act_on-Accepted (lookup v.state family false false).action r e family event v fresh
          (lookup-Fits v.state family))
]

-- What holds of a view and of all the ways that an event of the request can end is kept.
pub serve-keeps :
    (q : String) (event : Event) (v : View) (P : View → Type 0)
    → P v
    → ((e family : String) (out : View × Outcome)
        → names_of event ≡ some (q, e, family)
        → Accepted q e v out
        → P out.0)
    → P (serve q event v)
unfolding serve
serve-keeps q event v P h keeps = elim (Option-cases (names_of event)) [
  | inl unnamed ↦ rw (unnamed, serve) h
  | inr ((r, e, family), named) ↦ elim (Bool-cases (str_eq r q)) [
    | inr other ↦ rw (named, serve, other) h
    | inl same ↦
        rw (named, serve, same)
          (subst (λ p. names_of event ≡ some (p, e, family) → P (accept p e family event v).0)
            (sym ((eq_iff r q).0 same))
            (λ named'.
              keeps e family (accept q e family event v) named'
                (accept-Accepted q e family event v))
            named)
  ]
]
