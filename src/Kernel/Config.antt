-- ===== src/Kernel/Config.antt =====
-- src/kernel/config_view.py: the structural check of a snapshot, and the read-only view of it.
pub mod Choice
use Prim.Native.String.{◌++◌}
use absolute_zero.Prelude.{
  ℕ, String, Bool, true, Option, none, some, List, [], ◌∷◌, ◌||◌, not, or_else, is_some,
  if◌then◌else◌,
}
use absolute_zero.Prelude.Dict.{Dict, get}
use absolute_zero.Value.{
  ℤ, Value, null, list, dict, Items, nil, cons, Fields, end, field, find, is_int, is_list, is_dict,
  is_negative, int_of, pos_part, str_of, fields_of, items_of, strings_of,
}

-- The pair (ok, reason): `none` is (True, "").
abbrev pub Reason : Type 0
Reason = Option String

-- `a` decides, and `b` is asked only if `a` found nothing.
infixr 20 ◌then_check◌
abbrev pub ◌then_check◌ : Reason → Reason → Reason
none then_check b = b
(some r) then_check b = some r

-- One entry of `REQUIRED_KEYS`: the key is there, with a value of its type.
check_key : String → (Value → Bool) → Fields → Reason
check_key key has_type data_ = elim (find key data_) [
  | none ↦ some ("config.missing:" ++ key)
  | some v ↦ if has_type v then none else some ("config.bad_type:" ++ key)
]

check_keys : Fields → Reason
unfolding check_key
check_keys d =
    check_key "version" is_int d
    then_check check_key "inbound_events" is_list d
    then_check check_key "envelope_schemas" is_dict d
    then_check check_key "routing_table" is_dict d
    then_check check_key "gates" is_dict d
    then_check check_key "transitions" is_dict d
    then_check check_key "fault_policy" is_dict d

-- `not isinstance(policy.get(key), int) or policy[key] < 0`
check_policy : String → Fields → Reason
check_policy key policy = elim (find key policy) [
  | none ↦ some ("config.bad_fault_policy:" ++ key)
  | some v ↦
      if not (is_int v) || is_negative (int_of v)
      then some ("config.bad_fault_policy:" ++ key)
      else none
]

row_is_bad : Value → Bool
row_is_bad (dict row) = not (is_some (find "next" row)) || not (is_some (find "emit" row))
row_is_bad _ = true

check_rows : String → Items → Reason
check_rows key nil = none
check_rows key (cons row rows) =
    let rest = check_rows key rows in
    if row_is_bad row then some ("config.bad_transition_row:" ++ key) else rest

check_transition : String → Value → Reason
check_transition key (list nil) = some ("config.bad_transition:" ++ key)
check_transition key (list rows) = check_rows key rows
check_transition key _ = some ("config.bad_transition:" ++ key)

check_transitions : Fields → Reason
check_transitions end = none
check_transitions (field key rows d) = check_transition key rows then_check check_transitions d

-- The value under a key that `check_keys` has found.
abbrev required : String → Fields → Value
required key d = or_else (find key d) null

check_data : Fields → Reason
check_data d =
    check_keys d
    then_check check_policy "max_replans" (fields_of (required "fault_policy" d))
    then_check check_policy "max_active_requests" (fields_of (required "fault_policy" d))
    then_check check_transitions (fields_of (required "transitions" d))

-- `validate(data)`
unfoldable pub validate : Value → Reason
unfolding check_data check_keys check_policy check_transitions check_transition check_rows
    row_is_bad
validate (dict d) = check_data d
validate _ = some "config.not_mapping"

-- A row of the transition table, with the fields of the row schema in default_config.py.
pub record Row : Type 0 where
  pub when : Option String
  pub next : String
  pub emit : List String
  pub gate : Option String
  pub decision : Option String
  pub actions : List String
  pub chain : Option String

-- The rows of one table entry; a checked snapshot has at least one.
pub record Rows : Type 0 where
  pub first : Row
  pub others : List Row

last_of : Row → List Row → Row
last_of r [] = r
last_of r (s ∷ rest) = last_of s rest

-- `rows[-1]`
unfoldable pub last_row : Rows → Row
unfolding last_of
last_row rows = last_of rows.first rows.others

pub record ConfigView : Type 0 where
  pub version : ℤ
  pub inbound_events : List String
  pub envelope_schemas : Dict (List String)
  pub routing_table : Fields
  pub gates : Dict Fields
  pub transitions : Dict Rows
  pub max_replans : ℕ
  pub max_active_requests : ℕ

abbrev text_field : String → Fields → Option String
text_field key row = elim (find key row) [
  | none ↦ none
  | some null ↦ none
  | some v ↦ some (str_of v)
]

unfoldable pub read_row : Value → Row
read_row v =
    let row = fields_of v in
    record {
      when = text_field "when" row;
      next = str_of (required "next" row);
      emit = strings_of (items_of (required "emit" row));
      gate = text_field "gate" row;
      decision = text_field "decision" row;
      actions = strings_of (items_of (required "actions" row));
      chain = text_field "chain" row;
    }

read_others : Items → List Row
unfolding read_row
read_others nil = []
read_others (cons v vs) = read_row v ∷ read_others vs

read_transitions : Fields → Dict Rows
unfolding read_others
read_transitions end = []
read_transitions (field key (list (cons v vs)) d) =
    (key, record { first = read_row v; others = read_others vs }) ∷ read_transitions d
read_transitions (field key v d) = read_transitions d

read_schemas : Fields → Dict (List String)
read_schemas end = []
read_schemas (field key v d) = (key, strings_of (items_of v)) ∷ read_schemas d

read_gates : Fields → Dict Fields
read_gates end = []
read_gates (field key v d) = (key, fields_of v) ∷ read_gates d

-- `ConfigView(data)` on data that `validate` accepts: the properties of the class.
unfoldable pub read : Value → ConfigView
unfolding read_transitions read_schemas read_gates strings_of find
read v =
    let d = fields_of v in
    record {
      version = int_of (required "version" d);
      inbound_events = strings_of (items_of (required "inbound_events" d));
      envelope_schemas = read_schemas (fields_of (required "envelope_schemas" d));
      routing_table = fields_of (required "routing_table" d);
      gates = read_gates (fields_of (required "gates" d));
      transitions = read_transitions (fields_of (required "transitions" d));
      max_replans =
          pos_part (int_of (required "max_replans" (fields_of (required "fault_policy" d))));
      max_active_requests =
          pos_part
            (int_of (required "max_active_requests" (fields_of (required "fault_policy" d))));
    }

-- `state + "|" + event`
abbrev pub key_of : String → String → String
key_of state event = state ++ "|" ++ event

-- `cfg.rows(state, event)`
unfoldable pub rows : ConfigView → String → String → Option Rows
unfolding get
rows cfg state event = get (key_of state event) cfg.transitions
