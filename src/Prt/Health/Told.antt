-- ===== src/Prt/Health/Told.antt =====
-- src/prt/health.py: the events that a manager publishes.
use mathlib.Core.Path.{subst}
use absolute_zero.Prelude.{
  ℕ, String, ◌≡◌, refl, sym, ap, ◌∙◌, inl, inr, true, false, not, ◌&&◌, Option, none, some, List,
  [], ◌∷◌, ◌++◌, str_eq, eq_refl, Bool-cases, or_else, ◌==◌, arith, if◌then◌else◌,
}
use absolute_zero.Prt.Health.{
  State, healthy, degraded, unavailable, quarantined, recovering, recovered, eq_state, rank,
  Changed,
}

abbrev on_change : State → Changed → Option State → Option State
on_change s c rest = if eq_state c.from s && not (eq_state c.to c.from) then rest else none

-- The state that the events show of a provider, from `s` on; `none` if an event does not go on from
-- the state before it, or does not change it.
unfoldable pub told : String → State → List Changed → Option State
told p s [] = some s
told p s (c ∷ cs) =
    let on = told p c.to cs in
    let past = told p s cs in if str_eq c.provider_id p then on_change s c on else past

state_refl : (s : State) → eq_state s s ≡ true
state_refl healthy = refl
state_refl degraded = refl
state_refl unavailable = refl
state_refl quarantined = refl
state_refl recovering = refl
state_refl recovered = refl

unrank : ℕ → State
unrank n =
    if n == 0
    then healthy
    else if n == 1
    then degraded
    else if n == 2
    then unavailable
    else if n == 3
    then quarantined
    else if n == 4
    then recovering
    else recovered

unrank-rank : (s : State) → unrank (rank s) ≡ s
unfolding unrank
unrank-rank healthy = refl
unrank-rank degraded = refl
unrank-rank unavailable = refl
unrank-rank quarantined = refl
unrank-rank recovering = refl
unrank-rank recovered = refl

pub eq_state_eq : (s t : State) → eq_state s t ≡ true → s ≡ t
eq_state_eq s t h =
    let same : rank s ≡ rank t = ground (arith, h) in
    sym (unrank-rank s) ∙ ap unrank same ∙ unrank-rank t

-- One event more.
pub told-snoc :
    (p : String) (s t u : State) (sent : List Changed)
    → told p s sent ≡ some t
    → eq_state u t ≡ false
    → told p s (sent ++ record { provider_id = p; from = t; to = u } ∷ []) ≡ some u
unfolding told
told-snoc p s t u [] h moved =
    subst (λ x. told p x (record { provider_id = p; from = t; to = u } ∷ []) ≡ some u)
      (sym (ap (λ o. or_else o s) h)) (rw (eq_refl p, state_refl t, moved) refl)
told-snoc p s t u (c ∷ cs) h moved = elim (Bool-cases (str_eq c.provider_id p)) [
  | inl mine ↦ elim (Bool-cases (eq_state c.from s && not (eq_state c.to c.from))) [
    | inl goes ↦
        rw (mine, goes) (told-snoc p c.to t u cs (sym (on_change-goes mine goes) ∙ h) moved)
    | inr breaks ↦ absurd (cc (sym (on_change-breaks mine breaks) ∙ h))
  ]
  | inr other ↦ rw other (told-snoc p s t u cs (rw other at h) moved)
]
  where
    on_change-goes :
        str_eq c.provider_id p ≡ true
        → (eq_state c.from s && not (eq_state c.to c.from)) ≡ true
        → told p s (c ∷ cs) ≡ told p c.to cs
    on_change-goes mine goes = rw (mine, goes) refl

    on_change-breaks :
        str_eq c.provider_id p ≡ true
        → (eq_state c.from s && not (eq_state c.to c.from)) ≡ false
        → told p s (c ∷ cs) ≡ none
    on_change-breaks mine breaks = rw (mine, breaks) refl

pub told-other :
    (p : String) (s : State) (c : Changed) (sent : List Changed)
    → str_eq c.provider_id p ≡ false
    → told p s (sent ++ c ∷ []) ≡ told p s sent
unfolding told
told-other p s c [] other = rw other refl
told-other p s c (d ∷ ds) other =
    ground (arith, told-other p s c ds other, told-other p d.to c ds other)
