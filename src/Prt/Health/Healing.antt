-- ===== src/Prt/Health/Healing.antt =====
-- src/prt/health.py: a provider that goes on to succeed is healthy again.
use mathlib.Core.List.{foldl-append}
use absolute_zero.Prelude.{
  ℕ, suc, ◌+◌, ◌-◌, ◌≤◌, String, ◌≡◌, refl, ap, ◌∙◌, inl, inr, Bool, true, false, if◌then◌else◌,
  Option, List, [], ◌∷◌, ◌++◌, foldl, leb, All, length, Bool-cases, arith,
}
use absolute_zero.Value.{Value}
use absolute_zero.Prt.Evidence.{
  completed, failed, timeout, force_quarantine, force_release, disable, enable, Observation, live,
  admin, priors, Entry,
}
use absolute_zero.Prt.Health.{
  State, healthy, degraded, unavailable, quarantined, recovering, recovered, Thresholds, Carry,
  effective, on_success, enact, health_transitions, step, step_entry, fold_provider, initial_carry,
}
use absolute_zero.Prt.Health.Legal.{Evident, fold-Evident}

-- The successes that a provider still needs, of which `cs` are counted.
abbrev needed : Thresholds → ℕ → State → ℕ
needed th cs healthy = 0
needed th cs degraded = 1
needed th cs recovered = 1
needed th cs recovering = 2 + (th.successes_to_recover - suc cs)
needed th cs quarantined = 3 + (th.successes_to_recover - suc (suc cs))
needed th cs unavailable = 0

abbrev after_success : Thresholds → String → ℕ → State → State
after_success th p cs s = enact health_transitions p s (on_success th (suc cs) s)

needed-success :
    (th : Thresholds) (p : String) (cs n : ℕ) (s : State)
    → Evident s
    → needed th cs s ≤ suc n
    → (needed th (suc cs) (after_success th p cs s) ≤ n) × Evident (after_success th p cs s)
needed-success th p cs n healthy h few = (omega arith, refl)
needed-success th p cs n degraded h few = (omega arith, refl)
needed-success th p cs n unavailable h few = absurd (cc h)
needed-success th p cs n quarantined h few = (omega (arith, few), refl)
needed-success th p cs n recovering h few =
    elim (Bool-cases (leb th.successes_to_recover (suc cs))) [
      | inl enough ↦ rw enough (omega (arith, few), refl)
      | inr more ↦ rw more (ground (arith, more, few), refl)
    ]
needed-success th p cs n recovered h few = (omega (arith, few), refl)

needed_none : (th : Thresholds) (cs : ℕ) (s : State) → Evident s → needed th cs s ≤ 0 → s ≡ healthy
needed_none th cs healthy h few = refl
needed_none th cs degraded h few = absurd (omega (arith, few))
needed_none th cs unavailable h few = absurd (cc h)
needed_none th cs quarantined h few = absurd (omega (arith, few))
needed_none th cs recovering h few = absurd (omega (arith, few))
needed_none th cs recovered h few = absurd (omega (arith, few))

needed_most : (th : Thresholds) (cs : ℕ) (s : State) → needed th cs s ≤ 3 + th.successes_to_recover
needed_most th cs healthy = omega arith
needed_most th cs degraded = omega arith
needed_most th cs unavailable = omega arith
needed_most th cs quarantined = omega arith
needed_most th cs recovering = omega arith
needed_most th cs recovered = omega arith

-- Whether a provider is barred after an observation, and after some entries.
abbrev bars : {P : Type 0} → Bool → Observation P → Bool
bars b (admin disable actor reason) = true
bars b (admin enable actor reason) = false
bars b o = b

abbrev pub is_barred : {P : Type 0} → Bool → List (Entry P) → Bool
is_barred b [] = b
is_barred b (e ∷ es) = is_barred (bars b e.said) es

step-bars :
    {P : Type 0} (th : Thresholds) (p : String) (carry : Carry P) (o : Observation P)
    → (step health_transitions th p carry o).disabled ≡ bars carry.disabled o
unfolding step
step-bars th p carry (priors prior version) = refl
step-bars th p carry (admin disable actor reason) = refl
step-bars th p carry (admin enable actor reason) = refl
step-bars th p carry (admin force_quarantine actor reason) = refl
step-bars th p carry (admin force_release actor reason) = refl
step-bars th p carry (live failed detail) = refl
step-bars th p carry (live timeout detail) = refl
step-bars th p carry (live completed detail) = refl

module _ {P : Type 0} (th : Thresholds) (neutral : P) (p : String) where
  abbrev pub IsSuccess : Entry P → Type 0
  IsSuccess e = (detail : Option Value) × (e.said ≡ live completed detail)

  success-healthy :
      (carry : Carry P) (es : List (Entry P))
      → All IsSuccess es
      → Evident carry.state
      → needed th carry.cs carry.state ≤ length es
      → (foldl (step_entry health_transitions th neutral p) carry es).state ≡ healthy
  unfolding step_entry step
  success-healthy carry [] all h few = needed_none th carry.cs carry.state h few
  success-healthy carry (e ∷ es) all h few =
      let (detail, same) = all.0 in
      let next : Carry P = step health_transitions th p carry (live completed detail) in
      let (fewer, evident) = needed-success th p carry.cs (length es) carry.state h few in
      ap
        (λ o.
          (foldl (step_entry health_transitions th neutral p) (step health_transitions th p carry o)
            es).state)
        same
      ∙ success-healthy next es all.1 evident fewer

  -- Only the acts of an administrator bar a provider, and let it in again.
  fold-barred :
      (carry : Carry P) (es : List (Entry P))
      → (foldl (step_entry health_transitions th neutral p) carry es).disabled
        ≡ is_barred carry.disabled es
  unfolding step_entry
  fold-barred carry [] = refl
  fold-barred carry (e ∷ es) =
      fold-barred (step health_transitions th p carry e.said) es
      ∙ ap (λ b. is_barred b es) (step-bars th p carry e.said)

  successes-bar : (b : Bool) (es : List (Entry P)) → All IsSuccess es → is_barred b es ≡ b
  successes-bar b [] all = refl
  successes-bar b (e ∷ es) all =
      ap (λ o. is_barred (bars b o) es) (all.0).1 ∙ successes-bar b es all.1

  -- No state of the evidence is for ever: whatever the evidence was, with any thresholds, three
  -- successes more than are asked for to recover, one after the other, make the evidence of a provider
  -- healthy again. The state that is displayed is then HEALTHY, unless the last act of an
  -- administrator in the past that disables or enables the provider has disabled it: then it stays
  -- UNAVAILABLE.
  pub fold_provider-heals :
      (past es : List (Entry P))
      → All IsSuccess es
      → 3 + th.successes_to_recover ≤ length es
      → let carry = fold_provider health_transitions th neutral p (past ++ es) in
        (carry.state ≡ healthy)
        × (effective carry ≡ (if is_barred false past then unavailable else healthy))
  unfolding fold_provider
  fold_provider-heals past es all enough =
      let start = initial_carry health_transitions th neutral in
      let carry = foldl (step_entry health_transitions th neutral p) start past in
      let last = foldl (step_entry health_transitions th neutral p) carry es in
      let same = foldl-append (step_entry health_transitions th neutral p) start past es in
      let heals : last.state ≡ healthy =
        success-healthy carry es all (fold-Evident th p neutral start past refl)
          (omega (arith, needed_most th carry.cs carry.state, enough)) in
      let barred : last.disabled ≡ is_barred false past =
        fold-barred carry es ∙ successes-bar carry.disabled es all ∙ fold-barred start past in
      (
        ap (λ c. c.state) same ∙ heals,
        ap (λ c. effective c) same
            ∙ ap (λ s. if last.disabled then unavailable else s) heals
            ∙ ap (λ b. if b then unavailable else healthy) barred,
      )
