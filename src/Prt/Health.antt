-- ===== src/Prt/Health.antt =====
-- src/prt/health.py: the health of a provider, folded from its evidence, and the manager that keeps
-- what it has folded.
pub mod Scratch
pub mod Legal
pub mod Healing
pub mod Told
pub mod Published
use absolute_zero.Prelude.{
  ℕ, zero, suc, String, Bool, true, false, not, ◌&&◌, Option, none, some, List, [], ◌∷◌, ◌++◌,
  foldl, leb, length, or_else, ◌==◌, if◌then◌else◌,
}
use absolute_zero.Prelude.Dict
use absolute_zero.Prelude.Dict.{Dict}
use absolute_zero.Value.{Value}
use absolute_zero.Prt.Evidence.{
  LiveKind, completed, failed, timeout, AdminKind, force_quarantine, force_release, disable, enable,
  Observation, live, admin, priors, Entry, EvidenceJournal, append_live, append_admin, entries_for,
}

pub data State : Type 0 where
  healthy : State
  degraded : State
  unavailable : State
  quarantined : State
  recovering : State
  recovered : State

abbrev pub rank : State → ℕ
rank healthy = 0
rank degraded = 1
rank unavailable = 2
rank quarantined = 3
rank recovering = 4
rank recovered = 5

abbrev pub eq_state : State → State → Bool
eq_state a b = rank a == rank b

pub record Thresholds : Type 0 where
  pub consecutive_failures_to_degrade : ℕ
  pub failures_to_quarantine : ℕ
  pub successes_to_recover : ℕ

abbrev pub default_thresholds : Thresholds
default_thresholds = record {
  consecutive_failures_to_degrade = 1;
  failures_to_quarantine = 3;
  successes_to_recover = 2;
}

pub record Carry (P : Type 0) : Type 0 where
  pub state : State
  pub cf : ℕ
  pub cs : ℕ
  pub disabled : Bool
  pub reliability : P
  pub priors_version : Option ℕ

abbrev pub effective : {P : Type 0} → Carry P → State
effective carry = if carry.disabled then unavailable else carry.state

-- What a failure proposes, `cf` counted with it.
abbrev pub on_failure : Thresholds → ℕ → State → State
on_failure th cf recovering = quarantined
on_failure th cf recovered = if leb th.failures_to_quarantine cf then quarantined else degraded
on_failure th cf healthy =
    if leb th.failures_to_quarantine cf
    then quarantined
    else if leb th.consecutive_failures_to_degrade cf
    then degraded
    else healthy
on_failure th cf s = if leb th.failures_to_quarantine cf then quarantined else s

-- What a success proposes, `cs` counted with it.
abbrev pub on_success : Thresholds → ℕ → State → State
on_success th cs quarantined = recovering
on_success th cs recovering = if leb th.successes_to_recover cs then recovered else recovering
on_success th cs recovered = healthy
on_success th cs degraded = healthy
on_success th cs s = s

-- `legality(provider_id, state, proposed)`
abbrev pub Legality : Type 0
Legality = String → State → State → Bool

-- The proposal is asked for only if it is another state.
abbrev pub enact : Legality → String → State → State → State
enact legality p s proposed =
    if not (eq_state proposed s) && legality p s proposed then proposed else s

-- `HEALTH_TRANSITIONS`, as a legality
abbrev pub health_transitions : Legality
health_transitions p healthy degraded = true
health_transitions p healthy quarantined = true
health_transitions p degraded quarantined = true
health_transitions p degraded healthy = true
health_transitions p quarantined recovering = true
health_transitions p recovering quarantined = true
health_transitions p recovering recovered = true
health_transitions p recovered quarantined = true
health_transitions p recovered degraded = true
health_transitions p recovered healthy = true
health_transitions p s t = false

abbrev failing : Legality → Thresholds → String → {P : Type 0} → Carry P → Carry P
failing legality th p carry = record carry {
  state = enact legality p carry.state (on_failure th (suc carry.cf) carry.state);
  cf = suc carry.cf;
  cs = 0;
}

-- `_step`
unfoldable pub step :
    Legality → Thresholds → String → {P : Type 0} → Carry P → Observation P → Carry P
step legality th p carry (priors prior version) = record carry {
  reliability = prior;
  priors_version = some version;
}
step legality th p carry (admin disable actor reason) = record carry { disabled = true }
step legality th p carry (admin enable actor reason) = record carry { disabled = false }
step legality th p carry (admin force_quarantine actor reason) = record carry {
  state = quarantined;
  cf = 0;
  cs = 0;
}
step legality th p carry (admin force_release actor reason) = record carry {
  state = healthy;
  cf = 0;
  cs = 0;
}
step legality th p carry (live failed detail) = failing legality th p carry
step legality th p carry (live timeout detail) = failing legality th p carry
step legality th p carry (live completed detail) = record carry {
  state = enact legality p carry.state (on_success th (suc carry.cs) carry.state);
  cf = 0;
  cs = suc carry.cs;
}

pub record Changed : Type 0 where
  pub provider_id : String
  pub from : State
  pub to : State

abbrev pub drop {ℓ} : {A : Type ℓ} → ℕ → List A → List A
drop zero xs = xs
drop (suc n) [] = []
drop (suc n) (x ∷ xs) = drop n xs

-- The legality, the thresholds and the prior of a provider of which none is known.
module _ (legality : Legality) (th : Thresholds) {P : Type 0} (neutral : P) where
  abbrev pub initial_carry : Carry P
  initial_carry = record {
    state = healthy;
    cf = 0;
    cs = 0;
    disabled = false;
    reliability = neutral;
    priors_version = none;
  }

  -- One entry of the fold.
  unfoldable pub step_entry : String → Carry P → Entry P → Carry P
  step_entry p carry e = step legality th p carry e.said

  unfoldable pub fold_provider : String → List (Entry P) → Carry P
  unfolding step_entry
  fold_provider p es = foldl (step_entry p) initial_carry es

  pub record HealthManager : Type 0 where
    pub journal : EvidenceJournal P
    pub cache : Dict (Carry P)
    pub folded : Dict ℕ
    pub bus : Option (List Changed)

  abbrev pub new_manager : EvidenceJournal P → Option (List Changed) → HealthManager
  new_manager j bus = record { journal = j; cache = []; folded = []; bus = bus }

  -- `plugin.health.changed`, if the state that is displayed has changed
  abbrev pub tell : String → State → State → Option (List Changed) → Option (List Changed)
  tell p before after none = none
  tell p before after (some sent) =
      if eq_state after before
      then some sent
      else some (sent ++ record { provider_id = p; from = before; to = after } ∷ [])

  unfoldable pub catch_up :
      String → List (Entry P) → Carry P → Option (List Changed) → Carry P × Option (List Changed)
  unfolding step_entry
  catch_up p [] carry bus = (carry, bus)
  catch_up p (e ∷ es) carry bus =
      let after = step_entry p carry e in
      catch_up p es after (tell p (effective carry) (effective after) bus)

  abbrev pub carry_of : String → HealthManager → Carry P
  carry_of p m = or_else (Dict.get p m.cache) initial_carry

  abbrev pub done_of : String → HealthManager → ℕ
  done_of p m = or_else (Dict.get p m.folded) 0

  -- `_sync`
  unfoldable pub sync : String → HealthManager → Carry P × HealthManager
  unfolding catch_up entries_for Dict.get Dict.put
  sync p m =
      let es = entries_for p m.journal in
      let (carry, bus) = catch_up p (drop (done_of p m) es) (carry_of p m) m.bus in
      (
        carry,
        record m {
          cache = Dict.put p carry m.cache;
          folded = Dict.put p (length es) m.folded;
          bus = bus;
        },
      )

  -- `state`
  unfoldable pub state_of : String → HealthManager → State × HealthManager
  unfolding sync
  state_of p m = let (carry, m') = sync p m in (effective carry, m')

  unfoldable pub reliability_of : String → HealthManager → P × HealthManager
  unfolding sync
  reliability_of p m = let (carry, m') = sync p m in (carry.reliability, m')

  -- The state after an entry, if there is one.
  unfoldable pub after_entry :
      String → Option (ℕ × EvidenceJournal P) → HealthManager → Option (State × HealthManager)
  unfolding state_of
  after_entry p none m = none
  after_entry p (some (seq, j)) m = some (state_of p (record m { journal = j }))

  unfoldable pub record_outcome :
      String → String → Option Value → HealthManager → Option (State × HealthManager)
  unfolding after_entry append_live
  record_outcome p kind detail m = after_entry p (append_live p kind detail m.journal) m

  -- `force_quarantine`, `force_release`, `disable` and `enable`, by their kind
  unfoldable pub administer :
      String → String → String → String → HealthManager → Option (State × HealthManager)
  unfolding after_entry append_admin
  administer p kind actor reason m = after_entry p (append_admin p kind actor reason m.journal) m

  abbrev pub is_available : State → Bool
  is_available healthy = true
  is_available degraded = true
  is_available recovered = true
  is_available s = false

  -- The data of a snapshot: whether each provider is available, and its reliability.
  unfoldable pub snapshot :
      List String → Dict (Bool × P) → HealthManager → Dict (Bool × P) × HealthManager
  unfolding sync Dict.put
  snapshot [] data' m = (data', m)
  snapshot (p ∷ ps) data' m =
      let (carry, m') = sync p m in
      snapshot ps (Dict.put p (is_available (effective carry), carry.reliability) data') m'
