-- ===== src/Rsm/Reducers/Schema.antt =====
-- src/rsm/reducers.py: events, the schema fixtures and `_validate`. The names of an envelope are
-- texts, if they are there; the version and the payload are any value.
use absolute_zero.Prelude.{
  ◌≡◌, refl, ℕ, suc, ◌+◌, ◌-◌, ltb, String, not, Option, none, some, List, [], ◌∷◌, is_some,
  if◌then◌else◌,
}
use absolute_zero.Prelude.Dict
use absolute_zero.Prelude.Dict.{Dict}
use absolute_zero.Value.{
  Value, dict, Fields, find, value_or_null, is_int, int_of, is_hashable, is_dict, fields_of, ℤ, pos,
  negsuc, eq_ℤ,
}

pub record Event : Type 0 where
  pub event_id : Option String
  pub family : Option String
  pub request_id : Option String
  pub schema_version : Value
  pub payload : Value

-- `make_event(event_id, family, request_id, schema_version, payload)`
abbrev pub make_event : String → String → String → Value → Fields → Event
make_event e f r v p = record {
  event_id = some e;
  family = some f;
  request_id = some r;
  schema_version = v;
  payload = dict p;
}

-- The required fields of version 1, the only one, by family.
unfoldable pub schemas : Dict (List String)
schemas =
    ("request.received", "declared_type" ∷ "origin" ∷ [])
    ∷ ("intent.classified", "classification_ref" ∷ [])
    ∷ ("plan.created", "plan_id" ∷ "revision" ∷ [])
    ∷ ("plan.revised", "plan_id" ∷ "revision" ∷ [])
    ∷ ("plan.validated", "verdict_ref" ∷ [])
    ∷ ("plan.rejected", "verdict_ref" ∷ "reason" ∷ [])
    ∷ ("task.scheduled", "task_id" ∷ "budget_granted" ∷ [])
    ∷ ("task.started", "task_id" ∷ [])
    ∷ ("task.preempted", "task_id" ∷ [])
    ∷ ("task.completed", "task_id" ∷ [])
    ∷ ("task.failed", "task_id" ∷ "reason" ∷ [])
    ∷ ("exec.started", "exec_id" ∷ "task_id" ∷ [])
    ∷ ("exec.completed", "exec_id" ∷ "outcome_ref" ∷ [])
    ∷ ("exec.timeout", "exec_id" ∷ [])
    ∷ ("exec.failed", "exec_id" ∷ "reason" ∷ [])
    ∷ ("context.assembled", "step" ∷ "context_package_id" ∷ [])
    ∷ ("verify.requested", "gate" ∷ [])
    ∷ ("verify.passed", "gate" ∷ "verdict_ref" ∷ [])
    ∷ ("verify.failed", "gate" ∷ "verdict_ref" ∷ [])
    ∷ ("storage.committed", "commit_ref" ∷ [])
    ∷ ("storage.rejected", "reason" ∷ [])
    ∷ ("cost.recorded", "amount" ∷ [])
    ∷ ("fault.recorded", "reason" ∷ [])
    ∷ ("request.completed", [])
    ∷ ("request.failed", "reason" ∷ [])
    ∷ ("request.rejected", "reason" ∷ [])
    ∷ ("request.cancelled", [])
    ∷ []

-- The reason of a ReducerFault; its text is made of these parts.
pub data Reason : Type 0 where
  schema_mismatch : String → Value → Reason
  no_payload : String → Reason
  malformed : String → List String → Reason

-- How a check or a reducer ends: `crashed` is a TypeError.
pub data Result (A : Type 0) : Type 0 where
  ok : A → Result A
  fault_of : Reason → Result A
  crashed : Result A

infixl 40 ◌>>=◌
abbrev pub ◌>>=◌ : {A B : Type 0} → Result A → (A → Result B) → Result B
ok a >>= f = f a
fault_of reason >>= f = fault_of reason
crashed >>= f = crashed

-- `SCHEMAS.get(family, {}).get(version)`: `True` is the key 1.
unfoldable pub schema_of : String → Value → Option (List String)
unfolding Dict.get schemas
schema_of family version =
    if is_int version
    then (if eq_ℤ (int_of version) (pos 1) then Dict.get family schemas else none)
    else none

-- `[f for f in schema if f not in payload]`
unfoldable pub missing : List String → Fields → List String
unfolding find
missing [] p = []
missing (f ∷ fs) p = let rest = missing fs p in if is_some (find f p) then rest else f ∷ rest

abbrev reject_missing : String → Fields → List String → Result Fields
reject_missing family p [] = ok p
reject_missing family p fs = fault_of (malformed family fs)

-- `_validate(family, event)`
unfoldable pub validate : String → Event → Result Fields
unfolding schema_of missing
validate family e =
    if not (is_hashable e.schema_version)
    then crashed
    else elim (schema_of family e.schema_version) [
      | none ↦ fault_of (schema_mismatch family e.schema_version)
      | some fields ↦
          if not (is_dict e.payload)
          then fault_of (no_payload family)
          else reject_missing family (fields_of e.payload) (missing fields (fields_of e.payload))
    ]

-- `payload[name]`, of a field that the schema requires
unfoldable pub item : String → Fields → Value
unfolding find
item name p = value_or_null (find name p)

-- The sum of two whole numbers.
abbrev subtract : ℕ → ℕ → ℤ
subtract a b = if ltb a b then negsuc (b - a - 1) else pos (a - b)

infix 60 ◌+ℤ◌
abbrev pub ◌+ℤ◌ : ℤ → ℤ → ℤ
pos a +ℤ pos b = pos (a + b)
pos a +ℤ negsuc b = subtract a (suc b)
negsuc a +ℤ pos b = subtract b (suc a)
negsuc a +ℤ negsuc b = negsuc (suc (a + b))

-- The three ways of a result, with the equation.
pub data Cases {A : Type 0} (x : Result A) : Type 0 where
  is_ok : (a : A) → x ≡ ok a → Cases x
  is_fault : (reason : Reason) → x ≡ fault_of reason → Cases x
  is_crash : x ≡ crashed → Cases x

pub Result-Cases : {A : Type 0} (x : Result A) → Cases x
Result-Cases (ok a) = is_ok a refl
Result-Cases (fault_of reason) = is_fault reason refl
Result-Cases crashed = is_crash refl
