-- ===== src/Rsm/Record.antt =====
-- src/rsm/record.py: the record of a request. A block is a record of the fields that the reducers
-- write, and a table has any hashable value as its key, as a Python dict does.
use absolute_zero.Prelude.{
  ℕ, suc, String, Bool, true, Option, none, some, List, [], ◌∷◌, ◌&&◌, str_eq, if◌then◌else◌,
}
use absolute_zero.Value.{Value, null, str, Fields, end, field, is_int, int_of, eq_ℤ, ℤ}

-- `a == b` of two keys: `True` is the key 1.
abbrev pub eq_key : Value → Value → Bool
eq_key null null = true
eq_key (str a) (str b) = str_eq a b
eq_key a b = is_int a && is_int b && eq_ℤ (int_of a) (int_of b)

abbrev pub Table : Type 0 → Type 0
Table V = List (Value × V)

module _ {V : Type 0} where
  -- `t.get(key)`
  unfoldable pub look : Value → Table V → Option V
  look key [] = none
  look key ((k, v) ∷ t) = if eq_key k key then some v else look key t

  -- `t[key] = v`
  unfoldable pub assign : Value → V → Table V → Table V
  assign key v [] = (key, v) ∷ []
  assign key v ((k, w) ∷ t) = if eq_key k key then (k, v) ∷ t else (k, w) ∷ assign key v t

-- `d[key] = v` of a dict with text keys
unfoldable pub set : String → Value → Fields → Fields
set key v end = field key v end
set key v (field k w d) = if str_eq k key then field k v d else field k w (set key v d)

-- The Work block; no table is ever made empty again, so an absent one is the empty one.
pub record Work : Type 0 where
  pub tasks : Table Fields
  pub execs : Table Fields
  pub commit_ref : Option Value

-- The Budget block, `none` for an absent amount.
pub record Budget : Type 0 where
  pub granted : Option ℤ
  pub consumed : Option ℤ

-- An entry of the Failure block.
pub record FailureEntry : Type 0 where
  pub source_event_id : Option String
  pub family : String
  pub ref : Value
  pub seq : ℕ

pub record JournalMeta : Type 0 where
  pub seq : ℕ
  pub last_event_id : Option String
  pub reducer_version : ℕ

pub record RequestRecord : Type 0 where
  pub request_id : String
  pub version : ℕ
  pub identity : Fields
  pub lifecycle : Fields
  pub plan : Fields
  pub work : Work
  pub context : Table Value
  pub verification : Table Fields
  pub budget : Budget
  pub failure : List FailureEntry
  pub journal_meta : JournalMeta

-- A named block of `evolve(**block_updates)` with its new value; no other block can be named.
pub data Update : Type 0 where
  to_lifecycle : Fields → Update
  to_plan : Fields → Update
  to_work : Work → Update
  to_context : Table Value → Update
  to_verification : Table Fields → Update
  to_budget : Budget → Update
  to_failure : List FailureEntry → Update

abbrev pub replace_block : RequestRecord → Update → RequestRecord
replace_block r (to_lifecycle b) = record r { lifecycle = b }
replace_block r (to_plan b) = record r { plan = b }
replace_block r (to_work b) = record r { work = b }
replace_block r (to_context b) = record r { context = b }
replace_block r (to_verification b) = record r { verification = b }
replace_block r (to_budget b) = record r { budget = b }
replace_block r (to_failure b) = record r { failure = b }

unfoldable pub replace : RequestRecord → List Update → RequestRecord
replace r [] = r
replace r (u ∷ us) = replace (replace_block r u) us

-- `r.evolve(**block_updates)`
unfoldable pub evolve : RequestRecord → List Update → RequestRecord
unfolding replace
evolve r us = replace (record r { version = suc r.version }) us

abbrev no_work : Work
no_work = record { tasks = []; execs = []; commit_ref = none }

abbrev pub no_budget : Budget
no_budget = record { granted = none; consumed = none }

abbrev first_meta : JournalMeta
first_meta = record { seq = 0; last_event_id = none; reducer_version = 1 }

-- `birth(request_id, identity_fields)`
unfoldable pub birth : String → Fields → RequestRecord
birth id fields = record {
  request_id = id;
  version = 0;
  identity = fields;
  lifecycle = end;
  plan = end;
  work = no_work;
  context = [];
  verification = [];
  budget = no_budget;
  failure = [];
  journal_meta = first_meta;
}
