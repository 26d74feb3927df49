-- ===== src/Rsm/Recovery/Tests.antt =====
-- src/rsm/recovery.py: a storage in memory, and the theorems at the request of the scenario.
use absolute_zero.Prelude.{
  String, ◌≡◌, refl, sym, ap, ◌∙◌, inl, inr, Bool, true, false, Option, none, some, List, [], ◌∷◌,
  map, ◌&&◌, arith, str_eq, eq_iff, eq_refl, or_else, Bool-cases, if◌then◌else◌,
}
use absolute_zero.Value.{eq_ℤ, eq_ℤ-refl, eq_ℤ-sound, pos, end}
use absolute_zero.Rsm.Record.{RequestRecord, birth}
use absolute_zero.Rsm.Journal.{ids, entries}
use absolute_zero.Rsm.Reducers.{Event}
use absolute_zero.Rsm.Store.{Store, get_record, state_of}
use absolute_zero.Rsm.Ingest.{Ingest, process}
use absolute_zero.Rsm.Persistence.{
  Port, Key, journal_key, terminal_key, checkpoint_key, checkpoint_index_key, Document,
  is_json_record, read_terminal_snapshot, persist_terminal, write_checkpoint, Checkpoint,
}
use absolute_zero.Rsm.Requests.Kept.{started}
use absolute_zero.Rsm.Requests.Steps.{Call, processing, perform_all}
use absolute_zero.Rsm.Scenario.{birth_event, scheduled, completed, life, lived}
use absolute_zero.Rsm.Recovery.{Replayed, replay_journal}
use absolute_zero.Rsm.Recovery.Rebuilds.{applied_events}
use absolute_zero.Rsm.Recovery.Replay.{id_of, replay-rebuilds}
use absolute_zero.Rsm.Recovery.Stored.{
  IsStorage, replay_from_journal_index, replay_from_checkpoint, replay-persisted,
}
use absolute_zero.Rsm.Recovery.Checkpoints.{replay-checkpoint}

abbrev eq_Key : Key → Key → Bool
eq_Key (journal_key r) (journal_key q) = str_eq r q
eq_Key (terminal_key r) (terminal_key q) = str_eq r q
eq_Key (checkpoint_key r n) (checkpoint_key q m) = str_eq r q && eq_ℤ n m
eq_Key (checkpoint_index_key r) (checkpoint_index_key q) = str_eq r q
eq_Key _ _ = false

eq_Key-refl : (k : Key) → eq_Key k k ≡ true
eq_Key-refl (journal_key r) = eq_refl r
eq_Key-refl (terminal_key r) = eq_refl r
eq_Key-refl (checkpoint_key r n) = ground (arith, eq_refl r, eq_ℤ-refl n)
eq_Key-refl (checkpoint_index_key r) = eq_refl r

eq_Key-sound : (k l : Key) → eq_Key k l ≡ true → k ≡ l
eq_Key-sound (journal_key r) (journal_key q) h = ap journal_key ((eq_iff r q).0 h)
eq_Key-sound (terminal_key r) (terminal_key q) h = ap terminal_key ((eq_iff r q).0 h)
eq_Key-sound (checkpoint_key r n) (checkpoint_key q m) h =
    ap (λ s. checkpoint_key s n) ((eq_iff r q).0 (ground arith))
    ∙ ap (checkpoint_key q) (eq_ℤ-sound n m (ground arith))
eq_Key-sound (checkpoint_index_key r) (checkpoint_index_key q) h =
    ap checkpoint_index_key ((eq_iff r q).0 h)
eq_Key-sound (journal_key r) (terminal_key q) h = absurd (cc h)
eq_Key-sound (journal_key r) (checkpoint_key q m) h = absurd (cc h)
eq_Key-sound (journal_key r) (checkpoint_index_key q) h = absurd (cc h)
eq_Key-sound (terminal_key r) (journal_key q) h = absurd (cc h)
eq_Key-sound (terminal_key r) (checkpoint_key q m) h = absurd (cc h)
eq_Key-sound (terminal_key r) (checkpoint_index_key q) h = absurd (cc h)
eq_Key-sound (checkpoint_key r n) (journal_key q) h = absurd (cc h)
eq_Key-sound (checkpoint_key r n) (terminal_key q) h = absurd (cc h)
eq_Key-sound (checkpoint_key r n) (checkpoint_index_key q) h = absurd (cc h)
eq_Key-sound (checkpoint_index_key r) (journal_key q) h = absurd (cc h)
eq_Key-sound (checkpoint_index_key r) (terminal_key q) h = absurd (cc h)
eq_Key-sound (checkpoint_index_key r) (checkpoint_key q m) h = absurd (cc h)

-- A storage that is the blob of each key, with documents for bytes.
abbrev blobs : Port
blobs = record {
  Storage = Key → Option Document;
  Bytes = Document;
  write = λ k b st. some (λ l. if eq_Key k l then some b else st l);
  read = λ k st. st k;
  dumps = λ d. d;
  loads = λ d. some d;
}

some_inj : {A : Type 0} (a b : A) → some a ≡ some b → a ≡ b
some_inj a b h = ap (λ o. or_else o a) h

blobs-IsStorage : IsStorage blobs
blobs-IsStorage = record {
  reads_back =
      λ k b st st' done. ap (λ f. f k) (sym (some_inj _ st' done)) ∙ rw (eq_Key-refl k) refl;
  keeps_other = λ k l b st st' different done.
      ap (λ f. f l) (sym (some_inj _ st' done)) ∙ elim (Bool-cases (eq_Key k l)) [
        | inl same ↦ absurd (different (eq_Key-sound k l same))
        | inr other ↦ rw other refl
      ];
  gives_back = λ d fits. refl;
}

abbrev empty_storage : Key → Option Document
empty_storage k = none

abbrev source : String → Option Event
source id =
    if str_eq id "e0"
    then some birth_event
    else if str_eq id "e1"
    then some scheduled
    else if str_eq id "e2"
    then some completed
    else none

-- The record of the request at its end.
abbrev last_record : RequestRecord
last_record = or_else (get_record "r1" lived.store) (birth "r1" end)

replay-rebuilds_example :
    (out : Replayed) × (replay_journal (ids "r1" lived.journal) source none none ≡ some out)
    × (out.rebuilt ≡ some last_record)
    × (entries "r1" out.journal ≡ entries "r1" lived.journal)
unfolding perform_all process applied_events get_record
replay-rebuilds_example =
    replay-rebuilds life none "r1" source last_record refl (refl, (refl, (refl, tt)))

-- What `persist_terminal` leaves at the time 10.
abbrev persisted_pair : (Key → Option Document) × Store
persisted_pair =
    or_else (persist_terminal blobs "r1" 10 lived.journal lived.store empty_storage)
      (empty_storage, lived.store)

replay-persisted_example :
    (c : RequestRecord) × (out : Replayed) × (get_record "r1" lived.store ≡ some c)
    × (replay_from_journal_index blobs "r1" source persisted_pair.0 ≡ some out)
    × (out.rebuilt ≡ some c)
    × (entries "r1" out.journal ≡ entries "r1" lived.journal)
    × (is_json_record c ≡ true → read_terminal_snapshot blobs "r1" persisted_pair.0 ≡ some c)
unfolding perform_all process applied_events persist_terminal
replay-persisted_example =
    replay-persisted blobs blobs-IsStorage life none "r1" 10 source empty_storage persisted_pair.0
      persisted_pair.1 (refl, (refl, (refl, tt))) refl

-- A checkpoint after the birth, and the rest of the life.
abbrev first_calls : List Call
first_calls = processing 0 birth_event ∷ []

abbrev further : List Call
further = processing 1 scheduled ∷ processing 2 completed ∷ []

abbrev born : Ingest
born = perform_all first_calls (started none)

abbrev written : Checkpoint × (Key → Option Document)
written = or_else (write_checkpoint blobs "r1" born.journal born.store empty_storage) (
  record { request_id = ""; seq = pos 0; journal_prefix = []; record_then = birth "" end },
  empty_storage,
)

replay-checkpoint_example :
    (out : Replayed) × (replay_from_checkpoint blobs "r1"
        (map id_of (applied_events "r1" further born))
        source
        none
        written.1
      ≡ some out)
    × (get_record "r1" out.store ≡ some last_record)
    × (entries "r1" out.journal ≡ entries "r1" (perform_all further born).journal)
unfolding perform_all process applied_events get_record write_checkpoint state_of
replay-checkpoint_example =
    replay-checkpoint blobs blobs-IsStorage first_calls further none "r1" source empty_storage
      written.1 written.0 last_record refl refl refl (refl, (refl, tt)) refl
