-- ===== src/Rsm/Journal.antt =====
-- src/rsm/journal.py and src/rsm/dedup.py: the applied events of each request.
use absolute_zero.Prelude.{
  ℕ, String, Bool, Option, none, some, List, [], ◌∷◌, ◌++◌, elem, length, or_else, if◌then◌else◌,
}
use absolute_zero.Prelude.Dict
use absolute_zero.Prelude.Dict.{Dict}

pub record Entry : Type 0 where
  pub event_id : String
  pub seq : ℕ
  pub reducer_version : ℕ

pub record Journal : Type 0 where
  pub all_entries : Dict (List Entry)
  pub all_ids : Dict (List String)

abbrev pub new_journal : Journal
new_journal = record { all_entries = []; all_ids = [] }

-- `self._ids.get(request_id, ())`
unfoldable pub ids : String → Journal → List String
unfolding Dict.get
ids r j = or_else (Dict.get r j.all_ids) []

-- `entries(request_id)`
unfoldable pub entries : String → Journal → List Entry
unfolding Dict.get
entries r j = or_else (Dict.get r j.all_entries) []

unfoldable pub has : String → String → Journal → Bool
unfolding ids
has r e j = elem e (ids r j)

-- `is_duplicate(journal, request_id, event_id)`
abbrev pub is_duplicate : Journal → String → String → Bool
is_duplicate j r e = has r e j

-- `append(request_id, event_id, reducer_version)` with its `seq`; an id twice raises.
unfoldable pub append : String → String → ℕ → Journal → Option (ℕ × Journal)
unfolding has ids entries Dict.put
append r e version j =
    let seq = length (entries r j) in
    let entry : Entry = record { event_id = e; seq = seq; reducer_version = version } in
    if has r e j
    then none
    else some (
      seq,
      record {
        all_entries = Dict.put r (entries r j ++ entry ∷ []) j.all_entries;
        all_ids = Dict.put r (ids r j ++ e ∷ []) j.all_ids;
      },
    )
