-- ===== src/Kernel/Gates.antt =====
-- src/kernel/gates.py, router.py and admission.py: the three pure decisions of the coordinator.
use Prim.Native.String.{◌++◌}
use absolute_zero.Prelude.{
  ℕ, String, Bool, false, Option, none, some, List, [], ◌∷◌, is_some, or_else, leb, str_eq,
  if◌then◌else◌,
}
use absolute_zero.Prelude.Dict
use absolute_zero.Value.{null, str, Fields, find}
use absolute_zero.Kernel.Config.{ConfigView}
use absolute_zero.Kernel.Ledger.{RequestState}

-- `gate_def.get("verdict", "verification")`
abbrev pub verdict_name : Fields → String
verdict_name gate = elim (find "verdict" gate) [
  | some (str s) ↦ s
  | some v ↦ ""
  | none ↦ "verification"
]

-- `_verdict_true`: a verdict that is missing or false blocks.
unfoldable pub verdict_true : RequestState → Fields → Bool
verdict_true entry gate = or_else (Dict.get (verdict_name gate) entry.recorded_verdicts) false

-- `gates.evaluate`: only the check "verdict_true" is known, and any other blocks.
unfoldable pub evaluate : RequestState → Fields → Bool
unfolding verdict_true find
evaluate entry gate = elim (find "check" gate) [
  | some (str s) ↦ if str_eq s "verdict_true" then verdict_true entry gate else false
  | _ ↦ false
]

-- `router.route`: the target, or the reason of the rejection.
pub data Route : Type 0 where
  target : String → Route
  rejected : String → Route

unfoldable pub route : String → ConfigView → Route
unfolding find
route declared_type cfg = elim (find declared_type cfg.routing_table) [
  | none ↦ rejected "routing.unknown_type"
  | some null ↦ rejected "routing.unknown_type"
  | some (str s) ↦ target s
  | some v ↦ rejected "routing.ambiguous_type"
]

missing_key : List String → Fields → Option String
missing_key [] payload = none
missing_key (key ∷ keys) payload =
    let rest = missing_key keys payload in if is_some (find key payload) then rest else some key

-- `admission.decide`: `none` permits, and a reason refuses.
unfoldable pub decide : String → Fields → ConfigView → Bool → ℕ → Option String
unfolding missing_key Dict.get
decide event payload cfg halted active =
    if halted
    then some "admission.halted"
    else if leb cfg.max_active_requests active
    then some "admission.exhausted"
    else elim (missing_key (or_else (Dict.get event cfg.envelope_schemas) []) payload) [
      | none ↦ none
      | some key ↦ some ("admission.schema_invalid:" ++ key)
    ]
