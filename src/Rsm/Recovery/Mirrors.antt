-- ===== src/Rsm/Recovery/Mirrors.antt =====
-- src/rsm/recovery.py: a request and its replay, side by side.
use absolute_zero.Prelude.{
  String, ◌≡◌, ◌⊎◌, refl, ap, ◌∙◌, inl, inr, Bool, true, false, Option, none, some, elem, arith,
  str_eq, Bool-cases, Option-cases, if◌then◌else◌,
}
use absolute_zero.Rsm.Transitions.{
  terminal, persisted, evicted, Action, create, apply, apply_terminal, fault, drop, unregistered,
  lookup, row, birth_family, registered_families, late_tolerant_families,
}
use absolute_zero.Rsm.Record.{RequestRecord}
use absolute_zero.Rsm.Reducers.{Event, Reducer, Result, ok, fault_of, crashed, reducer_of}
use absolute_zero.Rsm.Ingest.{Outcome}
use absolute_zero.Rsm.Requests.{View, accept, act_on, fold_event, fold_current, folded}
use absolute_zero.Rsm.Requests.Accepted.{Accepted, unmoved, births, folds, accept-Accepted}

-- A view and its replay: the same, but for persisting, until the request is evicted.
abbrev pub Mirrors : View → View → Type 0
Mirrors live rep =
    (rep ≡ live)
    ⊎ ((live.state ≡ persisted) × (rep ≡ record live { state = terminal }))
    ⊎ (live.state ≡ evicted)

abbrev pub is_late : Action → Bool
is_late apply = true
is_late fault = true
is_late unregistered = true
is_late _ = false

-- The rows of the states persisted and terminal have the same actions.
late-lookup :
    (family : String)
    → ((lookup persisted family false false).action ≡ (lookup terminal family false false).action)
      × (is_late (lookup terminal family false false).action ≡ true)
unfolding lookup
late-lookup family = elim (Bool-cases (elem family registered_families)) [
  | inr other ↦ rw (other, lookup) (refl, refl)
  | inl known ↦
      rw (known, lookup)
        (late_row (str_eq family birth_family) (elem family late_tolerant_families))
]
  where
    late_row :
        (b t : Bool)
        → ((if b
              then row fault persisted
              else if t
              then row apply persisted
              else row fault persisted).action
            ≡ (if b
                then row fault terminal
                else if t
                then row apply terminal
                else row fault terminal).action)
          × (is_late
                (if b
                  then row fault terminal
                  else if t
                  then row apply terminal
                  else row fault terminal).action
              ≡ true)
    late_row true t = (refl, refl)
    late_row false true = (refl, refl)
    late_row false false = (refl, refl)

-- The view of the replay, where the live one is persisted.
abbrev pub unpersisted : View → View
unpersisted live = record live { state = terminal }

fold_event-Mirrors :
    (e family : String) (event : Event) (live : View)
    → live.state ≡ persisted
    → Mirrors
        (fold_event e family live.state event live).0
        (fold_event e family terminal event (unpersisted live)).0
unfolding fold_event
fold_event-Mirrors e family event live p = elim (Option-cases (reducer_of family)) [
  | inl none' ↦ rw (none', fold_event) (inr (inl (p, refl)))
  | inr (reducer, found) ↦ rw (found, fold_event) (by_current reducer live.current)
]
  where
    folded_mirrors :
        (x : Result RequestRecord)
        → Mirrors (folded e live.state x live).0 (folded e terminal x (unpersisted live)).0
    folded_mirrors (ok new) = inr (inl (p, refl))
    folded_mirrors (fault_of reason) = inr (inl (p, refl))
    folded_mirrors crashed = inr (inl (p, refl))

    by_current :
        (reducer : Reducer) (o : Option RequestRecord)
        → Mirrors
            (fold_current reducer e live.state event live o).0
            (fold_current reducer e terminal event (unpersisted live) o).0
    by_current reducer none = inr (inl (p, refl))
    by_current reducer (some current) = folded_mirrors (reducer current event)

act_on-Mirrors :
    (a : Action) (r e family : String) (event : Event) (live : View)
    → is_late a ≡ true
    → live.state ≡ persisted
    → Mirrors (act_on a r e family event live).0 (act_on a r e family event (unpersisted live)).0
unfolding act_on
act_on-Mirrors unregistered r e family event live late p = inr (inl (p, refl))
act_on-Mirrors fault r e family event live late p = inr (inl (p, refl))
act_on-Mirrors apply r e family event live late p = fold_event-Mirrors e family event live p
act_on-Mirrors create r e family event live late p = absurd (cc late)
act_on-Mirrors apply_terminal r e family event live late p = absurd (cc late)
act_on-Mirrors drop r e family event live late p = absurd (cc late)

pub evicted_stays :
    (r e : String) (v : View) (out : View × Outcome)
    → Accepted r e v out
    → v.state ≡ evicted
    → out.0.state ≡ evicted
evicted_stays r e v _ (unmoved o h) gone = gone
evicted_stays r e v _ (births fields fresh unborn) gone = absurd (ground arith)
evicted_stays r e v _ (folds family f event current new s fresh found live c (inl same)) gone =
    same ∙ gone
evicted_stays r e v _ (folds family f event current new s fresh found live c (inr ends)) gone =
    absurd (ground arith)

pub accept-Mirrors :
    (r e family : String) (event : Event) (live rep : View)
    → Mirrors live rep
    → Mirrors (accept r e family event live).0 (accept r e family event rep).0
unfolding accept
accept-Mirrors r e family event live rep (inl same) = inl (rw same refl)
accept-Mirrors r e family event live rep (inr (inr gone)) =
    inr (inr (evicted_stays r e live _ (accept-Accepted r e family event live) gone))
accept-Mirrors r e family event live rep (inr (inl (p, same))) =
    let (same_action, late) = late-lookup family in
    let actions : (lookup live.state family false false).action
        ≡ (lookup terminal family false false).action =
      ap (λ s. (lookup s family false false).action) p ∙ same_action in
    elim (Bool-cases (elem e live.seen)) [
      | inl again ↦ rw (same, again, accept) (inr (inl (p, refl)))
      | inr fresh ↦
          rw (same, fresh, accept, actions)
            (act_on-Mirrors (lookup terminal family false false).action r e family event live late
              p)
    ]
