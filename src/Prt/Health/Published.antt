-- ===== src/Prt/Health/Published.antt =====
-- src/prt/health.py: the events that a manager publishes follow the states of the providers.
use absolute_zero.Prelude.{String, ◌≡◌, false, Option, some, List, str_eq}
use absolute_zero.Prelude.Dict
use absolute_zero.Prt.Health.{State, healthy, Thresholds, effective, Legality, Changed, carry_of}
use absolute_zero.Prt.Health.Scratch.{Manager}
use absolute_zero.Prt.Health.Told.{told}

-- What a provider has shown in `sent` goes on to what it shows in `after`.
record Tells (p : String) (sent : List Changed) (s : State) (bus : Option (List Changed))
    : Type 0 where
  pub after : List Changed
  pub is_after : bus ≡ some after
  pub mine : told p healthy after ≡ some s
  pub others : (q : String) → str_eq p q ≡ false → told q healthy after ≡ told q healthy sent

module _ (legality : Legality) (th : Thresholds) {P : Type 0} (neutral : P) where
  -- The events show of every provider the state that is displayed.
  pub record Publishes (m : Manager legality th neutral) : Type 0 where
    pub sent : List Changed
    pub is_sent : m.bus ≡ some sent
    pub shows :
        (q : String) → told q healthy sent ≡ some (effective (carry_of legality th neutral q m))
