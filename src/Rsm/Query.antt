-- ===== src/Rsm/Query.antt =====
-- src/rsm/query.py: the reads.
pub mod Honest
use absolute_zero.Prelude.{
  ℕ, zero, suc, String, Bool, true, false, Option, none, some, List, [], ◌∷◌, ◌++◌, ◌&&◌, map, elem,
  or_else, is_some, arith, str_eq, eq_iff, Bool-cases, Option-cases, if◌then◌else◌,
}
use absolute_zero.Prelude.Dict
use absolute_zero.Prelude.Dict.{Dict}
use absolute_zero.Value.{Value, Fields, ℤ, pos, negsuc, int, find, value_or_null}
use absolute_zero.Rsm.Transitions.{State, absent, evicted}
use absolute_zero.Rsm.Record.{RequestRecord, Work, Table, FailureEntry, JournalMeta}
use absolute_zero.Rsm.Reducers.{◌+ℤ◌}
use absolute_zero.Rsm.Journal.{Journal, Entry, entries, ids}
use absolute_zero.Rsm.Store.{Store, state_of, get_record, request_ids, is_active, is_absent}

-- `status(store, request_id)`
abbrev pub status : Store → String → State
status s r = state_of r s

abbrev pub is_hidden : State → Bool
is_hidden absent = true
is_hidden evicted = true
is_hidden _ = false

unfoldable pub snapshot : Store → String → Option RequestRecord
unfolding state_of get_record
snapshot s r = if is_hidden (status s r) then none else get_record r s

-- The answer of `budget`.
pub record BudgetView : Type 0 where
  pub granted : ℤ
  pub consumed : ℤ
  pub remaining : ℤ

abbrev pub negate : ℤ → ℤ
negate (pos zero) = pos 0
negate (pos (suc n)) = negsuc n
negate (negsuc n) = pos (suc n)

unfoldable pub budget : Store → String → Option BudgetView
unfolding snapshot
budget s r = elim (snapshot s r) [
  | none ↦ none
  | some c ↦
      let granted = or_else c.budget.granted (pos 0) in
      let consumed = or_else c.budget.consumed (pos 0) in
      some
        (record { granted = granted; consumed = consumed; remaining = granted +ℤ negate consumed })
]

-- A readable block with its value; `budget` is the derived view.
pub data Block : Type 0 where
  identity : Fields → Block
  lifecycle : Fields → Block
  plan : Fields → Block
  work : Work → Block
  context : Table Value → Block
  verification : Table Fields → Block
  budget_view : BudgetView → Block
  failure : List FailureEntry → Block
  journal_meta : JournalMeta → Block

-- `getattr(record, block_name)` of a name of READABLE_BLOCKS; `none` for any other name.
abbrev pub block_of : String → Option (RequestRecord → Block)
block_of name =
    if str_eq name "identity"
    then some (λ c. identity c.identity)
    else if str_eq name "lifecycle"
    then some (λ c. lifecycle c.lifecycle)
    else if str_eq name "plan"
    then some (λ c. plan c.plan)
    else if str_eq name "work"
    then some (λ c. work c.work)
    else if str_eq name "context"
    then some (λ c. context c.context)
    else if str_eq name "verification"
    then some (λ c. verification c.verification)
    else if str_eq name "failure"
    then some (λ c. failure c.failure)
    else if str_eq name "journal_meta"
    then some (λ c. journal_meta c.journal_meta)
    else none

-- `block(store, request_id, block_name)`: `none` is a ValueError, `some none` is None.
unfoldable pub block : Store → String → String → Option (Option Block)
unfolding snapshot budget
block s r name =
    if str_eq name "budget"
    then some (elim (budget s r) [ none ↦ none | some b ↦ some (budget_view b) ])
    else elim (block_of name) [
      | none ↦ none
      | some read ↦ some (elim (snapshot s r) [ none ↦ none | some c ↦ some (read c) ])
    ]

pub record Failures : Type 0 where
  pub failure_entries : List FailureEntry
  pub replan_count : Value

-- `failures(store, request_id)`
unfoldable pub failures : Store → String → Option Failures
unfolding snapshot find
failures s r = elim (snapshot s r) [
  | none ↦ none
  | some c ↦ some (record {
    failure_entries = c.failure;
    replan_count = or_else (find "revision" c.plan) (int (pos 0));
  })
]

abbrev pub filter : (String → Bool) → List String → List String
filter p [] = []
filter p (x ∷ xs) = let rest = filter p xs in if p x then x ∷ rest else rest

-- `enumerate_active(store)`
unfoldable pub enumerate_active : Store → List String
unfolding state_of
enumerate_active s = filter (λ r. is_active (state_of r s)) (request_ids s)

-- `journal_read(journal, store, request_id)`
unfoldable pub journal_read : Journal → Store → String → Option (List String)
unfolding state_of entries
journal_read j s r =
    if is_hidden (status s r) then none else some (map (λ e. e.event_id) (entries r j))
