-- ===== src/Kernel/Envelope.antt =====
-- src/kernel/envelope.py: the structural check of an inbound envelope, and `make`.
use Prim.Native.String.{◌++◌}
use absolute_zero.Prelude.{
  ℕ, String, Bool, true, false, Option, none, some, List, [], ◌∷◌, is_some, elem, or_else,
  if◌then◌else◌,
}
use absolute_zero.Value.{ℤ, Value, null, str, dict, Fields, find, is_name, is_dict}
use absolute_zero.Kernel.Config.{Reason, ◌then_check◌}

-- `env[name]`, for a field that is there.
abbrev pub at : String → Fields → Value
at name env = or_else (find name env) null

abbrev required_fields : List String
required_fields = "event_id" ∷ "event_name" ∷ "request_id" ∷ "timestamp" ∷ "payload" ∷ []

check_present : List String → Fields → Reason
check_present [] env = none
check_present (name ∷ names) env =
    let rest = check_present names env in
    if is_some (find name env) then rest else some ("envelope.missing_field:" ++ name)

abbrev is_allowed : List String → Value → Bool
is_allowed allowed (str s) = elem s allowed
is_allowed allowed _ = false

abbrev check : Bool → String → Reason
check true reason = none
check false reason = some reason

-- `validate(env, allowed_event_names)`
unfoldable pub validate : List String → Value → Reason
unfolding check_present
validate allowed (dict env) =
    check_present required_fields env
    then_check check (is_name (at "event_id" env)) "envelope.bad_event_id"
    then_check check (is_allowed allowed (at "event_name" env)) "envelope.unknown_event_name"
    then_check check (is_dict (at "payload" env)) "envelope.bad_payload"
validate allowed _ = some "envelope.not_mapping"

-- The six fields of a published envelope.
pub record Envelope : Type 0 where
  pub event_id : String
  pub event_name : String
  pub request_id : Value
  pub timestamp : ℕ
  pub config_version : ℤ
  pub payload : Fields

-- `env if isinstance(env, dict) else None`
abbrev pub mapping : Value → Option Fields
mapping (dict env) = some env
mapping _ = none
