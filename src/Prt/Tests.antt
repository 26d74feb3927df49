-- ===== src/Prt/Tests.antt =====
-- A provider that fails, is quarantined and heals.
use absolute_zero.Prelude.{
  ◌&&◌, str_eq, if◌then◌else◌, ℕ, String, ◌≡◌, refl, Option, none, some, List, [], ◌∷◌, ◌++◌, arith,
}
use absolute_zero.Prt.Evidence.{
  completed, failed, timeout, disable, Observation, live, admin, priors, Entry, entries_for, upto,
}
use absolute_zero.Prt.Evidence.Slices.{append_all, take, upto-final}
use absolute_zero.Prt.Health.{
  healthy, unavailable, quarantined, recovering, default_thresholds, effective, health_transitions,
  fold_provider, Changed, new_manager, HealthManager, state_of, reliability_of, step,
}
use absolute_zero.Prt.Health.Legal.{allow_all, fold_provider-legal}
use absolute_zero.Prt.Health.Scratch.{
  Call, noting, outcome, administering, snapping, perform_all, manager-scratch,
}
use absolute_zero.Prt.Loading.{
  loading, prepared, loaded, released, transitions, new_tracker, load_state, request_transition,
}
use absolute_zero.Prt.Loading.Shown.{request_transition-edges}
use absolute_zero.Prt.Loading.Events.{Act, requesting, perform_all as perform_all_acts}
use absolute_zero.Prt.Health.Healing.{fold_provider-heals}

abbrev failing_run : List (String × Observation ℕ)
failing_run =
    ("p", live failed none)
    ∷ ("q", live completed none)
    ∷ ("p", live failed none)
    ∷ ("p", live timeout none)
    ∷ []

abbrev healing_run : List (String × Observation ℕ)
healing_run = ("p", live completed none) ∷ ("p", admin disable "op" "works") ∷ []

upto-final_example :
    upto 1 (append_all healing_run (append_all failing_run [])) ≡ take 2 (append_all failing_run [])
unfolding append_all
upto-final_example = upto-final failing_run healing_run 1 (omega arith)

abbrev calls : List (Call ℕ)
calls =
    outcome "p" "exec.failed" none
    ∷ outcome "p" "exec.failed" none
    ∷ noting "p" (live timeout none)
    ∷ outcome "p" "exec.bogus" none
    ∷ snapping ("p" ∷ "q" ∷ [])
    ∷ noting "p" (priors 7 1)
    ∷ administering "q" "disable" "op" "works"
    ∷ outcome "p" "exec.completed" none
    ∷ []

abbrev manager :
    Option (List Changed) → HealthManager health_transitions default_thresholds {P = ℕ} 5
manager bus =
    perform_all health_transitions default_thresholds 5 calls
      (new_manager health_transitions default_thresholds 5 [] bus)

p_recovers : (state_of health_transitions default_thresholds 5 "p" (manager none)).0 ≡ recovering
unfolding perform_all state_of step
p_recovers = refl

q_disabled : (state_of health_transitions default_thresholds 5 "q" (manager none)).0 ≡ unavailable
unfolding perform_all state_of step
q_disabled = refl

p_prior : (reliability_of health_transitions default_thresholds 5 "p" (manager none)).0 ≡ 7
unfolding perform_all reliability_of step
p_prior = refl

manager-scratch_example :
    ((state_of health_transitions default_thresholds 5 "p" (manager none)).0
      ≡ effective (
          fold_provider health_transitions default_thresholds 5 "p"
            (entries_for "p" (manager none).journal)))
    × ((reliability_of health_transitions default_thresholds 5 "p" (manager none)).0
        ≡ (fold_provider health_transitions default_thresholds 5 "p"
            (entries_for "p" (manager none).journal)).reliability)
manager-scratch_example = manager-scratch health_transitions default_thresholds 5 calls [] none "p"

abbrev past : List (Entry ℕ)
past =
    record { provider_id = "p"; seq = 0; said = live failed none }
    ∷ record { provider_id = "p"; seq = 1; said = live failed none }
    ∷ record { provider_id = "p"; seq = 2; said = live failed none }
    ∷ []

abbrev success : ℕ → Entry ℕ
success n = record { provider_id = "p"; seq = n; said = live completed none }

abbrev successes : List (Entry ℕ)
successes = success 3 ∷ success 4 ∷ success 5 ∷ success 6 ∷ success 7 ∷ []

past_quarantined :
    (fold_provider health_transitions default_thresholds 5 "p" past).state ≡ quarantined
unfolding fold_provider step
past_quarantined = refl

fold_provider-heals_example :
    ((fold_provider health_transitions default_thresholds 5 "p" (past ++ successes)).state
      ≡ healthy)
    × (effective (fold_provider health_transitions default_thresholds 5 "p" (past ++ successes))
        ≡ healthy)
fold_provider-heals_example =
    fold_provider-heals default_thresholds 5 "p" past successes
      ((none, refl), ((none, refl), ((none, refl), ((none, refl), ((none, refl), tt)))))
      (omega arith)

fold_provider-legal_example :
    fold_provider health_transitions default_thresholds 5 "p" past
    ≡ fold_provider allow_all default_thresholds 5 "p" past
fold_provider-legal_example = fold_provider-legal default_thresholds "p" 5 past

abbrev acts : List Act
acts =
    requesting "p" loading
    ∷ requesting "p" prepared
    ∷ requesting "p" loaded
    ∷ requesting "p" loading
    ∷ requesting "q" prepared
    ∷ requesting "p" released
    ∷ requesting "p" loading
    ∷ []

p_loading : load_state "p" (perform_all_acts acts (new_tracker (some []))) ≡ loading
unfolding perform_all_acts load_state
p_loading = refl

request_transition-edges_example :
    let (ok, tr) = request_transition "p" loading (new_tracker none) in
    (ok ≡ transitions (load_state "p" (new_tracker none)) loading)
    × (load_state "q" tr
        ≡ (if ok && str_eq "p" "q" then loading else load_state "q" (new_tracker none)))
request_transition-edges_example = request_transition-edges "p" "q" loading (new_tracker none)
