-- ===== src/Prt/Loading/Events.antt =====
-- src/prt/load_policy.py: the events of the tracker show which providers are loaded.
use absolute_zero.Prelude.{String, ◌≡◌, ◌⊎◌, Bool, true, false, not, some, List, [], ◌∷◌, ◌++◌}
use absolute_zero.Prelude.Dict
use absolute_zero.Prt.Loading.{
  LoadState, loaded, Asked, on_lifecycle_event, LoadEvent, LoadStateTracker, load_state, announce,
  request_transition,
}
use absolute_zero.Prt.Loading.Shown.{shown}

abbrev pub is_up : LoadState → Bool
is_up loaded = true
is_up s = false

-- A transition has an event exactly if it changes whether the provider is loaded.
abbrev Announces : String → LoadState → LoadState → List LoadEvent → Type 0
Announces p s t sent =
    ((is_up t ≡ is_up s) × (announce p s t (some sent) ≡ some sent))
    ⊎ ((is_up t ≡ not (is_up s))
        × (announce p s t (some sent)
            ≡ some (sent ++ record { provider_id = p; is_loaded = not (is_up s) } ∷ [])))

-- The events show of every provider whether it is loaded.
pub record Shows (tr : LoadStateTracker) : Type 0 where
  pub sent : List LoadEvent
  pub is_sent : tr.bus ≡ some sent
  pub shows : (q : String) → shown q false sent ≡ some (is_up (load_state q tr))

-- What is done with a tracker: a request, or an event for its legality.
pub data Act : Type 0 where
  requesting : String → LoadState → Act
  overriding : Asked → Act

unfoldable pub perform : Act → LoadStateTracker → LoadStateTracker
unfolding request_transition on_lifecycle_event
perform (requesting p t) tr = (request_transition p t tr).1
perform (overriding a) tr = record tr { is_legal = on_lifecycle_event a tr.is_legal }

unfoldable pub perform_all : List Act → LoadStateTracker → LoadStateTracker
unfolding perform
perform_all [] tr = tr
perform_all (a ∷ acts) tr = perform_all acts (perform a tr)
