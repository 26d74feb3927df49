-- ===== src/Prt/Health/Legal.antt =====
-- src/prt/health.py and src/prt/lifecycle_legality.py: what the fold proposes is legal.
use absolute_zero.Prelude.{
  ℕ, suc, String, ◌≡◌, refl, ap, ◌∙◌, inl, inr, true, false, List, [], ◌∷◌, foldl, leb, Bool-cases,
}
use absolute_zero.Prt.Evidence.{
  completed, failed, timeout, force_quarantine, force_release, disable, enable, Observation, live,
  admin, priors, Entry,
}
use absolute_zero.Prt.Health.{
  State, healthy, degraded, unavailable, quarantined, recovering, recovered, eq_state, Thresholds,
  Carry, on_failure, on_success, Legality, enact, health_transitions, failing, step, step_entry,
  fold_provider, initial_carry,
}

abbrev pub allow_all : Legality
allow_all p s t = true

-- Not the state that only an administrator sets.
abbrev pub Evident : State → Type 0
Evident s = eq_state s unavailable ≡ false

abbrev LegalFor : String → State → State → Type 0
LegalFor p s t =
    (enact health_transitions p s t ≡ enact allow_all p s t)
    × Evident (enact health_transitions p s t)

failure_legal :
    (th : Thresholds) (cf : ℕ) (p : String) (s : State)
    → Evident s
    → LegalFor p s (on_failure th cf s)
failure_legal th cf p healthy h = elim (Bool-cases (leb th.failures_to_quarantine cf)) [
  | inl much ↦ rw much (refl, refl)
  | inr few ↦ elim (Bool-cases (leb th.consecutive_failures_to_degrade cf)) [
    | inl much ↦ rw (few, much) (refl, refl)
    | inr never ↦ rw (few, never) (refl, refl)
  ]
]
failure_legal th cf p degraded h = elim (Bool-cases (leb th.failures_to_quarantine cf)) [
  | inl much ↦ rw much (refl, refl)
  | inr few ↦ rw few (refl, refl)
]
failure_legal th cf p unavailable h = absurd (cc h)
failure_legal th cf p quarantined h = elim (Bool-cases (leb th.failures_to_quarantine cf)) [
  | inl much ↦ rw much (refl, refl)
  | inr few ↦ rw few (refl, refl)
]
failure_legal th cf p recovering h = (refl, refl)
failure_legal th cf p recovered h = elim (Bool-cases (leb th.failures_to_quarantine cf)) [
  | inl much ↦ rw much (refl, refl)
  | inr few ↦ rw few (refl, refl)
]

success_legal :
    (th : Thresholds) (cs : ℕ) (p : String) (s : State)
    → Evident s
    → LegalFor p s (on_success th cs s)
success_legal th cs p healthy h = (refl, refl)
success_legal th cs p degraded h = (refl, refl)
success_legal th cs p unavailable h = absurd (cc h)
success_legal th cs p quarantined h = (refl, refl)
success_legal th cs p recovering h = elim (Bool-cases (leb th.successes_to_recover cs)) [
  | inl much ↦ rw much (refl, refl)
  | inr few ↦ rw few (refl, refl)
]
success_legal th cs p recovered h = (refl, refl)

module _ {P : Type 0} (th : Thresholds) (p : String) where
  failing_legal :
      (carry : Carry P)
      → Evident carry.state
      → (failing health_transitions th p carry ≡ failing allow_all th p carry)
        × Evident (failing health_transitions th p carry).state
  failing_legal carry h =
      let (same, evident) = failure_legal th (suc carry.cf) p carry.state h in
      (ap (λ s. record carry { state = s; cf = suc carry.cf; cs = 0 }) same, evident)

  -- A step keeps the state evident, and the table refuses none of what it proposes.
  pub step-legal :
      (carry : Carry P) (o : Observation P)
      → Evident carry.state
      → (step health_transitions th p carry o ≡ step allow_all th p carry o)
        × Evident (step health_transitions th p carry o).state
  unfolding step
  step-legal carry (priors prior version) h = (refl, h)
  step-legal carry (admin disable actor reason) h = (refl, h)
  step-legal carry (admin enable actor reason) h = (refl, h)
  step-legal carry (admin force_quarantine actor reason) h = (refl, refl)
  step-legal carry (admin force_release actor reason) h = (refl, refl)
  step-legal carry (live failed detail) h = failing_legal carry h
  step-legal carry (live timeout detail) h = failing_legal carry h
  step-legal carry (live completed detail) h =
      let (same, evident) = success_legal th (suc carry.cs) p carry.state h in
      (ap (λ s. record carry { state = s; cf = 0; cs = suc carry.cs }) same, evident)

  pub fold-Evident :
      (neutral : P) (carry : Carry P) (es : List (Entry P))
      → Evident carry.state
      → Evident (foldl (step_entry health_transitions th neutral p) carry es).state
  unfolding step_entry
  fold-Evident neutral carry [] h = h
  fold-Evident neutral carry (e ∷ es) h =
      fold-Evident neutral (step_entry health_transitions th neutral p carry e) es
        (step-legal carry e.said h).1

  fold-legal :
      (neutral : P) (carry : Carry P) (es : List (Entry P))
      → Evident carry.state
      → foldl (step_entry health_transitions th neutral p) carry es
        ≡ foldl (step_entry allow_all th neutral p) carry es
  unfolding step_entry
  fold-legal neutral carry [] h = refl
  fold-legal neutral carry (e ∷ es) h =
      let (same, evident) = step-legal carry e.said h in
      fold-legal neutral (step health_transitions th p carry e.said) es evident
      ∙ ap (λ c. foldl (step_entry allow_all th neutral p) c es) same

  -- The table of transitions refuses nothing that the evidence of a provider ever asks for, with
  -- any thresholds: the fold under it is the fold in which every transition is granted.
  pub fold_provider-legal :
      (neutral : P) (es : List (Entry P))
      → fold_provider health_transitions th neutral p es ≡ fold_provider allow_all th neutral p es
  unfolding fold_provider
  fold_provider-legal neutral es = fold-legal neutral (initial_carry allow_all th neutral) es refl
