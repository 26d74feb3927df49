-- ===== src/Rsm/Persistence.antt =====
-- src/rsm/persistence.py: the documents that are handed to Storage. The storage and the JSON codec
-- are a port; `none` is an exception.
use absolute_zero.Prelude.{
  ℕ, zero, suc, ◌%◌, String, Bool, true, false, Option, none, some, List, [], ◌∷◌, ◌==◌, ◌&&◌, ◌||◌,
  ◌>>=◌, length, if◌then◌else◌,
}
use absolute_zero.Value.{str, ℤ, pos, negsuc}
use absolute_zero.Rsm.Record.{RequestRecord, Table}
use absolute_zero.Rsm.Journal.{Entry, Journal, entries}
use absolute_zero.Rsm.Store.{Store, get_record, state_of, is_terminal, mark_persisted}

-- The keys of the blobs, by the function that makes them.
pub data Key : Type 0 where
  journal_key : String → Key
  terminal_key : String → Key
  checkpoint_key : String → ℤ → Key
  checkpoint_index_key : String → Key

pub record Checkpoint : Type 0 where
  pub request_id : String
  pub seq : ℤ
  pub journal_prefix : List Entry
  pub record_then : RequestRecord

-- The documents, of format version 1.
pub data Document : Type 0 where
  journal_index : String → List Entry → Document
  terminal_snapshot : RequestRecord → Document
  checkpoint : Checkpoint → Document
  latest_seq : ℤ → Document

pub record Port : Type 1 where
  pub Storage : Type 0
  pub Bytes : Type 0
  pub write : Key → Bytes → Storage → Option Storage
  pub read : Key → Storage → Option Bytes
  pub dumps : Document → Bytes
  pub loads : Bytes → Option Document

-- JSON makes a text of every key of an object.
abbrev pub has_text_keys : {V : Type 0} → Table V → Bool
has_text_keys [] = true
has_text_keys ((str s, v) ∷ t) = has_text_keys t
has_text_keys ((k, v) ∷ t) = false

-- A record that JSON gives back.
abbrev pub is_json_record : RequestRecord → Bool
is_json_record r =
    has_text_keys r.work.tasks
    && has_text_keys r.work.execs
    && has_text_keys r.context
    && has_text_keys r.verification

abbrev pub is_json : Document → Bool
is_json (journal_index r es) = true
is_json (terminal_snapshot r) = is_json_record r
is_json (checkpoint c) = is_json_record c.record_then
is_json (latest_seq n) = true

module _ (p : Port) where
  open p use {Storage, Bytes, write, read, dumps, loads}

  -- `json.loads(storage.read(key))`
  unfoldable pub load : Key → Storage → Option Document
  load key st = read key st >>= (λ bytes. loads bytes)

  -- `write_journal_index(storage, request_id, journal)`
  unfoldable pub write_journal_index : String → Journal → Storage → Option Storage
  unfolding entries
  write_journal_index r j st = write (journal_key r) (dumps (journal_index r (entries r j))) st

  abbrev pub entries_of : Document → Option (List Entry)
  entries_of (journal_index r es) = some es
  entries_of _ = none

  unfoldable pub read_journal_index : String → Storage → Option (List Entry)
  unfolding load
  read_journal_index r st = load (journal_key r) st >>= (λ d. entries_of d)

  unfoldable pub write_terminal_snapshot : String → RequestRecord → Storage → Option Storage
  write_terminal_snapshot r rec' st = write (terminal_key r) (dumps (terminal_snapshot rec')) st

  abbrev pub record_of : Document → Option RequestRecord
  record_of (terminal_snapshot rec') = some rec'
  record_of _ = none

  unfoldable pub read_terminal_snapshot : String → Storage → Option RequestRecord
  unfolding load
  read_terminal_snapshot r st = load (terminal_key r) st >>= (λ d. record_of d)

  -- `entries[-1][1] if entries else -1`
  unfoldable pub last_seq : List Entry → ℤ
  last_seq [] = negsuc 0
  last_seq (e ∷ []) = pos e.seq
  last_seq (e ∷ f ∷ es) = last_seq (f ∷ es)

  -- `write_checkpoint(storage, journal, store, request_id)`; without a record it raises.
  unfoldable pub write_checkpoint :
      String → Journal → Store → Storage → Option (Checkpoint × Storage)
  unfolding entries last_seq get_record
  write_checkpoint r j s st = do
    rec' ← get_record r s
    let es = entries r j in
        let doc : Checkpoint = record {
          request_id = r;
          seq = last_seq es;
          journal_prefix = es;
          record_then = rec';
        } in
        write (checkpoint_key r (last_seq es)) (dumps (checkpoint doc)) st
        >>= (λ st'. write (checkpoint_index_key r) (dumps (latest_seq (last_seq es))) st')
        >>= (λ st'. some (doc, st'))

  abbrev pub seq_of : Document → Option ℤ
  seq_of (latest_seq n) = some n
  seq_of _ = none

  abbrev pub checkpoint_of : Document → Option Checkpoint
  checkpoint_of (checkpoint c) = some c
  checkpoint_of _ = none

  -- `read_checkpoint(storage, request_id, seq)`
  unfoldable pub read_checkpoint : String → Option ℤ → Storage → Option Checkpoint
  unfolding load
  read_checkpoint r (some n) st = load (checkpoint_key r n) st >>= (λ d. checkpoint_of d)
  read_checkpoint r none st =
      load (checkpoint_index_key r) st
      >>= (λ d. seq_of d)
      >>= (λ n. load (checkpoint_key r n) st)
      >>= (λ d. checkpoint_of d)

  -- `maybe_checkpoint(storage, journal, store, request_id, checkpoint_n)`: the checkpoint, if one
  -- is written, with the storage.
  unfoldable pub maybe_checkpoint :
      String → ℕ → Journal → Store → Storage → Option (Option Checkpoint × Storage)
  unfolding write_checkpoint
  maybe_checkpoint r every j s st =
      if length (entries r j) == 0 || every == 0 || not_multiple (length (entries r j)) every
      then some (none, st)
      else write_checkpoint r j s st >>= (λ w. some (some w.0, w.1))
    where
      not_multiple : ℕ → ℕ → Bool
      not_multiple n zero = false
      not_multiple n (suc k) = if n % suc k == 0 then false else true

  -- `persist_terminal(storage, journal, store, request_id, clock)`
  unfoldable pub persist_terminal :
      String → ℕ → Journal → Store → Storage → Option (Storage × Store)
  unfolding state_of get_record mark_persisted write_journal_index write_terminal_snapshot
  persist_terminal r now j s st =
      if is_terminal (state_of r s)
      then (do
        st' ← write_journal_index r j st
        rec' ← get_record r s
        st'' ← write_terminal_snapshot r rec' st'
        s' ← mark_persisted r now s
        some (st'', s'))
      else none

  -- `reapply_journal_index(storage, journal, request_id)`
  abbrev pub reapply_journal_index : String → Journal → Storage → Option Storage
  reapply_journal_index r j st = write_journal_index r j st
