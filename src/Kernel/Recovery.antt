-- ===== src/Kernel/Recovery.antt =====
-- src/kernel/coordinator.py: `recover`, which rebuilds the ledger from the records of a log, and
-- the start of a coordinator.
pub mod Start
pub mod Table
pub mod Steps
pub mod Boundaries
pub mod Replays
pub mod RoundTrip
pub mod Soundness
use Prim.Native.String.{◌++◌}
use absolute_zero.Prelude.{
  ℕ, ◌+◌, String, Bool, true, false, Option, none, some, List, [], ◌∷◌, ◌||◌, ◌&&◌, not, or_else,
  is_some, elem, str_eq, ◌==◌, if◌then◌else◌,
}
use absolute_zero.Prelude.Dict
use absolute_zero.Value.{eq_ℤ, Value, value_or_null, decimal}
use absolute_zero.Kernel.Config
use absolute_zero.Kernel.Config.{ConfigView, Row, rows, read}
use absolute_zero.Kernel.Ledger
use absolute_zero.Kernel.Ledger.{RequestState, new_request, store}
use absolute_zero.Kernel.Record.{
  Info, LogRecord, Core, get_config, install, append_log, moved, record_of,
}
use absolute_zero.Kernel.Telemetry.{Outside, Coordinator, fault, publish_row}
use absolute_zero.Kernel.Coordinator.{choose, decision_of, session_events}

unfoldable pub eq_strings : List String → List String → Bool
eq_strings [] [] = true
eq_strings (a ∷ as') (b ∷ bs) = str_eq a b && eq_strings as' bs
eq_strings _ _ = false

unfoldable pub eq_info : Info → Info → Bool
eq_info [] [] = true
eq_info ((k, v) ∷ a) ((l, w) ∷ b) = str_eq k l && str_eq v w && eq_info a b
eq_info _ _ = false

unfoldable pub eq_text : Option String → Option String → Bool
eq_text none none = true
eq_text (some a) (some b) = str_eq a b
eq_text _ _ = false

unfoldable pub eq_bool : Bool → Bool → Bool
eq_bool true b = b
eq_bool false b = not b

-- `canonical(expected) == canonical(rec)`: the canonical forms agree when every field does. The
-- expected record has no verdict and no snapshot.
unfoldable pub same_record : LogRecord → LogRecord → Bool
unfolding eq_strings eq_info eq_text eq_bool
same_record e r =
    str_eq e.request_id r.request_id
    && eq_text e.event_id r.event_id
    && e.sequence == r.sequence
    && str_eq e.prior_state r.prior_state
    && str_eq e.event r.event
    && eq_bool e.guard_result r.guard_result
    && str_eq e.next_state r.next_state
    && eq_ℤ e.config_version r.config_version
    && eq_strings e.emitted_events r.emitted_events
    && eq_info e.info r.info
    && eq_text e.verdict r.verdict
    && not (is_some r.snapshot)

-- What the replay of one record comes to. `applied` also gives the entry, the row and the
-- snapshot whose emissions may have to be published again.
pub data Replayed : Type 0 where
  deviation : Core → Replayed
  skipped : Core → Replayed
  applied : RequestState → Row → ConfigView → Core → Replayed

-- The entry that a transition record applies to: a known one, or a new one at its birth.
unfoldable pub replay_entry : LogRecord → Option RequestState → Option RequestState
unfolding Dict.get
replay_entry rec (some entry) = some entry
replay_entry rec none =
    if str_eq rec.event "request.received"
    then some (
        new_request rec.request_id (or_else (Dict.get "declared_type" rec.info) "")
          rec.config_version)
    else none

unfoldable pub replay_row : LogRecord → RequestState → ConfigView → Core → Replayed
replay_row rec entry cfg s = elim (rows cfg entry.lifecycle_state rec.event) [
  | none ↦ deviation s
  | some rs ↦
      let row = choose rs rec.guard_result in
      let expected = record_of entry rec.event rec.event_id row rec.guard_result cfg rec.info in
      let entry' = record (moved entry rec.event rec.event_id row rec.info) {
        transition_sequence = rec.sequence;
      } in
      if not (str_eq entry.lifecycle_state rec.prior_state)
        || not (rec.sequence == entry.transition_sequence + 1)
      then deviation s
      else if same_record expected rec
      then applied entry' row cfg (append_log rec (record s { ledger = store entry' s.ledger }))
      else deviation s
]

unfoldable pub replay_transition : LogRecord → ConfigView → Core → Replayed
replay_transition rec cfg s = elim (Dict.get rec.request_id s.ledger) [
  | some entry ↦ replay_row rec entry cfg s
  | none ↦ elim (replay_entry rec none) [
    | none ↦ deviation s
    | some entry ↦ replay_row rec entry cfg (record s { ledger = store entry s.ledger })
  ]
]

-- One round of the loop of `recover`, without the emissions.
unfoldable pub replay : LogRecord → Core → Replayed
replay rec s =
    if str_eq rec.event "config.changed"
    then elim (Config.validate (value_or_null rec.snapshot)) [
      | some reason ↦ deviation s
      | none ↦ skipped (append_log rec (install (read (value_or_null rec.snapshot)) s))
    ]
    else if elem rec.event session_events
    then skipped (append_log rec s)
    else if str_eq rec.event "__cleanup__"
    then skipped (append_log rec (record s { ledger = Ledger.evict rec.request_id s.ledger }))
    else if is_some rec.verdict
    then skipped (append_log rec s)
    else elim (get_config rec.config_version s.configs) [
      | none ↦ deviation s
      | some cfg ↦ replay_transition rec cfg s
    ]

is_published : List (String × ℕ) → LogRecord → Bool
is_published [] rec = false
is_published ((rid, seq) ∷ more) rec =
    str_eq rid rec.request_id && seq == rec.sequence || is_published more rec

module _ (o : Outside) where
  open o use {World}

  abbrev C : Type 0
  C = Coordinator World

  -- `published is not None and (rid, rec["sequence"]) not in published`
  pub republish : Option (List (String × ℕ)) → LogRecord → RequestState → Row → ConfigView → C → C
  republish none rec entry row cfg c = c
  republish (some published) rec entry row cfg c =
      if is_published published rec
      then c
      else publish_row o entry row (decision_of row rec.guard_result) cfg rec.info c

  -- `_replay_deviation`: halt, announce, and give up.
  give_up : LogRecord → C → C
  give_up rec c =
      fault o ("replay.deviation:sequence=" ++ decimal rec.sequence) none
        (record c { halted = true })

  replay_all : List LogRecord → Option (List (String × ℕ)) → C → Bool × C
  replay_all [] published c = (true, c)
  replay_all (rec ∷ recs) published c = elim (replay rec c.core) [
    | deviation s ↦ (false, give_up rec (record c { core = s }))
    | skipped s ↦ replay_all recs published (record c { core = s })
    | applied entry row cfg s ↦
        replay_all recs published (republish published rec entry row cfg (record c { core = s }))
  ]

  -- `recover(records, published)`
  unfoldable pub recover : List LogRecord → Option (List (String × ℕ)) → C → Bool × C
  unfolding replay_all republish give_up replay replay_transition replay_entry replay_row
      same_record is_published
  recover records published c =
      replay_all records published
        (record c { core = record c.core { ledger = []; log = [] }; halted = false })

  -- `Coordinator(bus, config_data)`, on a snapshot that `validate` accepts.
  abbrev pub start : Value → World → C
  start snap w = record {
    core = record {
      ledger = [];
      log = [];
      configs = ((read snap).version, read snap) ∷ [];
      config = read snap;
    };
    halted = false;
    out_seq = 0;
    world = w;
  }
