-- ===== src/Kernel/Recovery/Table.antt =====
-- Which transition tables replay: a record keeps only whether the row permitted, so the row that
-- was picked has to be the first of its rows if it did, and the last of them if it did not.
use absolute_zero.Prelude.{
  String, ◌≡◌, Bool, true, false, none, some, List, [], ◌∷◌, ◌&&◌, not, elem, arith, str_eq,
}
use absolute_zero.Prelude.Dict
use absolute_zero.Prelude.Dict.{Dict}
use absolute_zero.Kernel.Config.{ConfigView, Row, Rows, rows, last_row}
use absolute_zero.Kernel.Ledger.{RequestState}
use absolute_zero.Kernel.Coordinator.{pick_row, choose, or_default}

-- The events that the log uses for records of its own.
abbrev pub reserved_events : List String
reserved_events = "config.changed" ∷ "session.wake" ∷ "session.sleep" ∷ "__cleanup__" ∷ []

chain_is_free : Row → Bool
chain_is_free row = elim row.chain [ none ↦ true | some event ↦ not (elem event reserved_events) ]

permits : String → Row → Bool
permits default row = str_eq (or_default row.decision default) "permit"

-- One row, or a first row that permits and a second that does not.
two_way : Rows → Bool
two_way rs = elim rs.others [
  | [] ↦ true
  | row ∷ [] ↦ permits "permit" rs.first && not (permits "block" row)
  | _ ↦ false
]

rows_replay : Rows → Bool
rows_replay rs = two_way rs && chain_is_free rs.first && chain_is_free (last_row rs)

table_replays : Dict Rows → Bool
table_replays [] = true
table_replays ((key, rs) ∷ table) = rows_replay rs && table_replays table

-- No row of the table is ambiguous, and no inbound event is spelled like a cleanup record.
unfoldable pub is_replayable : ConfigView → Bool
unfolding table_replays rows_replay two_way permits chain_is_free last_row
is_replayable cfg = table_replays cfg.transitions && not (elem "__cleanup__" cfg.inbound_events)

table_replays-get :
    (key : String) (table : Dict Rows) (rs : Rows)
    → table_replays table ≡ true
    → Dict.get key table ≡ some rs
    → rows_replay rs ≡ true
unfolding table_replays Dict.get
table_replays-get key [] rs h e = ground arith
table_replays-get key ((k, x) ∷ table) rs h e = ground (arith, table_replays-get key table rs)

rows-rows_replay :
    (cfg : ConfigView) (state event : String) (rs : Rows)
    → is_replayable cfg ≡ true
    → rows cfg state event ≡ some rs
    → rows_replay rs ≡ true
unfolding is_replayable rows
rows-rows_replay cfg state event rs h e = table_replays-get _ cfg.transitions rs (ground arith) e

pick_row-choose :
    (rs : Rows) (entry : RequestState) (cfg : ConfigView) (row : Row) (guard : Bool)
    → two_way rs ≡ true
    → pick_row rs entry cfg ≡ some (row, guard)
    → row ≡ choose rs guard
unfolding two_way last_row pick_row permits
pick_row-choose rs entry cfg row guard h e = ground arith

-- The row that is picked can be found again from its decision.
pub picked-choose :
    (cfg : ConfigView) (state event : String) (rs : Rows) (entry : RequestState) (row : Row)
    (guard : Bool)
    → is_replayable cfg ≡ true
    → rows cfg state event ≡ some rs
    → pick_row rs entry cfg ≡ some (row, guard)
    → row ≡ choose rs guard
unfolding rows_replay
picked-choose cfg state event rs entry row guard fit tabled picked =
    ground (
      arith,
      rows-rows_replay cfg state event rs fit tabled,
      pick_row-choose rs entry cfg row guard,
    )

-- The step that a row chains to is logged under a name that replay does not take for another.
pub chain-free :
    (cfg : ConfigView) (state event : String) (rs : Rows) (guard : Bool) (chained : String)
    → is_replayable cfg ≡ true
    → rows cfg state event ≡ some rs
    → (choose rs guard).chain ≡ some chained
    → elem chained reserved_events ≡ false
unfolding rows_replay chain_is_free
chain-free cfg state event rs true chained fit tabled e =
    ground (arith, rows-rows_replay cfg state event rs fit tabled)
chain-free cfg state event rs false chained fit tabled e =
    ground (arith, rows-rows_replay cfg state event rs fit tabled)

pub inbound-free :
    (cfg : ConfigView) → is_replayable cfg ≡ true → elem "__cleanup__" cfg.inbound_events ≡ false
unfolding is_replayable
inbound-free cfg fit = ground arith

-- The property as a type, for the steps that install snapshots.
abbrev pub IsReplayable : ConfigView → Type 0
IsReplayable cfg = is_replayable cfg ≡ true
