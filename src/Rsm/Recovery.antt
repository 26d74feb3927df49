-- ===== src/Rsm/Recovery.antt =====
-- src/rsm/recovery.py: the replay of a journal through the pipeline, and the gate of the reads.
-- The source of the events is a parameter; `none` of a replay is a KeyError.
pub mod Mirrors
pub mod Rebuilds
pub mod Replay
pub mod Stored
pub mod Tests
pub mod Checkpoints
use absolute_zero.Prelude.{
  ℕ, String, Bool, true, false, Option, none, some, List, [], ◌∷◌, or_else, ◌>>=◌, if◌then◌else◌,
}
use absolute_zero.Rsm.Record.{RequestRecord}
use absolute_zero.Rsm.Journal.{Journal, new_journal}
use absolute_zero.Rsm.Reducers.{Event}
use absolute_zero.Rsm.Store.{Store, new_store, get_record}
use absolute_zero.Rsm.Ingest.{Ingest, new_ingest, process}

-- `RecoveryGate`: whether it is recovering.
pub record RecoveryGate : Type 0 where
  pub recovering : Bool

abbrev pub new_gate : RecoveryGate
new_gate = record { recovering = true }

-- `guard()`: `false` is a RecoveringError.
abbrev pub guard : RecoveryGate → Bool
guard g = if g.recovering then false else true

abbrev pub open_gate : RecoveryGate → RecoveryGate
open_gate g = record { recovering = false }

pub record Replayed : Type 0 where
  pub store : Store
  pub journal : Journal
  pub rebuilt : Option RequestRecord

-- The end of `replay_journal`: the record of the last event's request.
abbrev pub replayed : Ingest → Option String → Replayed
replayed i last = record {
  store = i.store;
  journal = i.journal;
  rebuilt = elim last [ none ↦ none | some r ↦ get_record r i.store ];
}

-- The loop of `replay_journal`. There is no telemetry, so the time is not read.
unfoldable pub replay_events :
    (String → Option Event) → List String → Ingest → Option String → Option Replayed
unfolding process get_record
replay_events source [] i last = some (replayed i last)
replay_events source (id ∷ ids) i last = do
  event ← source id
  r ← event.request_id
  replay_events source ids (process 0 event i).0 (some r)

-- `replay_journal(event_ids, event_source, seed_store, seed_journal)`
unfoldable pub replay_journal :
    List String → (String → Option Event) → Option Store → Option Journal → Option Replayed
unfolding replay_events
replay_journal ids source s j =
    replay_events source ids (new_ingest (or_else s new_store) (or_else j new_journal) none) none
