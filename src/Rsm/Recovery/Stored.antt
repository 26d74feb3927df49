-- ===== src/Rsm/Recovery/Stored.antt =====
-- src/rsm/recovery.py: recovery from what persistence has written.
use mathlib.Core.Path.{subst}
use absolute_zero.Prelude.{
  ℕ, String, ◌≡◌, ◌≢◌, refl, sym, ap, ◌∙◌, inl, inr, true, Option, none, some, List, [], ◌∷◌, map,
  arith, ◌>>=◌, All, or_else, Bool-cases, Option-cases,
}
use absolute_zero.Value.{ℤ}
use absolute_zero.Rsm.Record.{RequestRecord}
use absolute_zero.Rsm.Journal.{Entry, Journal, entries, append, new_journal}
use absolute_zero.Rsm.Reducers.{Event}
use absolute_zero.Rsm.Store.{
  Store, new_store, get_record, state_of, seed, is_terminal, mark_persisted,
}
use absolute_zero.Rsm.Telemetry.{Telemetry}
use absolute_zero.Rsm.Persistence.{
  Port, Key, journal_key, terminal_key, Document, journal_index, terminal_snapshot, is_json,
  is_json_record, load, read_journal_index, read_terminal_snapshot, read_checkpoint, entries_of,
  record_of, write_journal_index, write_terminal_snapshot, persist_terminal,
}
use absolute_zero.Rsm.Requests.{view}
use absolute_zero.Rsm.Requests.Kept.{requests-IsKept, started}
use absolute_zero.Rsm.Requests.Steps.{Call, perform_all}
use absolute_zero.Rsm.Recovery.{Replayed, replay_journal}
use absolute_zero.Rsm.Recovery.Rebuilds.{applied_events}
use absolute_zero.Rsm.Recovery.Replay.{id_of, replay-rebuilds}

module _ (p : Port) where
  open p use {Storage, Bytes, write, read, dumps, loads}

  -- `replay_from_journal_index(storage, request_id, event_source)`
  unfoldable pub replay_from_journal_index :
      String → (String → Option Event) → Storage → Option Replayed
  unfolding read_journal_index replay_journal
  replay_from_journal_index r source st =
      read_journal_index p r st
      >>= (λ es. replay_journal (map (λ e. e.event_id) es) source none none)

  -- The loop over the journal prefix of a checkpoint.
  unfoldable pub append_all : String → List Entry → Journal → Option Journal
  unfolding append
  append_all r [] j = some j
  append_all r (e ∷ es) j =
      append r e.event_id e.reducer_version j >>= (λ out. append_all r es out.1)

  -- `replay_from_checkpoint(storage, request_id, tail_event_ids, event_source, seq)`
  unfoldable pub replay_from_checkpoint :
      String → List String → (String → Option Event) → Option ℤ → Storage → Option Replayed
  unfolding read_checkpoint seed append_all replay_journal
  replay_from_checkpoint r tail source seq st = do
    doc ← read_checkpoint p r seq st
    s ← seed r doc.record_then new_store
    j ← append_all r doc.journal_prefix new_journal
    replay_journal tail source (some s) (some j)

  -- A storage that reads what was written last under a key, and a codec that gives back every
  -- document whose objects have texts for keys.
  pub record IsStorage : Type 0 where
    pub reads_back :
        (k : Key) (b : Bytes) (st st' : Storage) → write k b st ≡ some st' → read k st' ≡ some b
    pub keeps_other :
        (k l : Key) (b : Bytes) (st st' : Storage)
        → k ≢ l
        → write k b st ≡ some st'
        → read l st' ≡ read l st
    pub gives_back : (d : Document) → is_json d ≡ true → loads (dumps d) ≡ some d

  pub written-load :
      IsStorage
      → (k : Key) (d : Document) (st st' : Storage) → is_json d ≡ true
      → write k (dumps d) st ≡ some st'
      → load p k st' ≡ some d
  unfolding load
  written-load law k d st st' fits done =
      ap (λ o. o >>= (λ bytes. loads bytes)) (law.reads_back k (dumps d) st st' done)
      ∙ law.gives_back d fits

  -- What `persist_terminal` leaves, if it returns.
  persisted-loads :
      IsStorage
      → (r : String) (now : ℕ) (j : Journal) (s s' : Store) (st st' : Storage)
      → persist_terminal p r now j s st ≡ some (st', s')
      → (c : RequestRecord) × (get_record r s ≡ some c)
        × (mark_persisted r now s ≡ some s')
        × (load p (journal_key r) st' ≡ some (journal_index r (entries r j)))
        × (is_json_record c ≡ true → load p (terminal_key r) st' ≡ some (terminal_snapshot c))
  unfolding load persist_terminal write_journal_index write_terminal_snapshot
  persisted-loads law r now j s s' st st' done = elim (Bool-cases (is_terminal (state_of r s))) [
    | inr open' ↦ absurd (ground arith)
    | inl over ↦ elim (Option-cases (write_journal_index p r j st)) [
      | inl failed ↦ absurd (ground arith)
      | inr (st1, first) ↦ elim (Option-cases (get_record r s)) [
        | inl missing ↦ absurd (ground arith)
        | inr (c, live) ↦ elim (Option-cases (write_terminal_snapshot p r c st1)) [
          | inl failed ↦ absurd (ground arith)
          | inr (st2, second) ↦ elim (Option-cases (mark_persisted r now s)) [
            | inl failed ↦ absurd (ground arith)
            | inr (s2, marked) ↦
                let ends : persist_terminal p r now j s st ≡ some (st2, s2) =
                  rw (persist_terminal, marked, first, live, second, over) refl in
                let same = ap (λ o. or_else o (st2, s2)) (sym ends ∙ done) in
                let kept : load p (journal_key r) st2 ≡ some (journal_index r (entries r j)) =
                  ap (λ o. o >>= (λ bytes. loads bytes))
                    (law.keeps_other (terminal_key r) (journal_key r) (dumps (terminal_snapshot c))
                      st1 st2 (λ h. cc h) second)
                  ∙ written-load law (journal_key r) (journal_index r (entries r j)) st st1 refl
                      first in
                (
                  c,
                  live,
                  marked ∙ ap (λ x. some x.1) same,
                  subst (λ x. load p (journal_key r) x.0 ≡ some (journal_index r (entries r j)))
                      same kept,
                  λ fits.
                      subst (λ x. load p (terminal_key r) x.0 ≡ some (terminal_snapshot c)) same
                        (written-load law (terminal_key r) (terminal_snapshot c) st1 st2 fits
                          second),
                )
          ]
        ]
      ]
    ]
  ]

  -- A request is recovered from Storage: after any calls, if `persist_terminal` returns, then the
  -- replay of the journal index that it wrote answers, for a source that has the applied events,
  -- with the record of the request at that moment and its journal; and, for a record whose tables
  -- have texts for keys, that is the terminal snapshot, so `verify_byte_identical` passes.
  pub replay-persisted :
      IsStorage
      → (cs : List Call) (t : Option Telemetry) (r : String) (now : ℕ)
        (source : String → Option Event) (st st' : Storage) (s' : Store)
      → let i = perform_all cs (started t) in
        All (λ event. source (id_of event) ≡ some event) (applied_events r cs (started t))
        → persist_terminal p r now i.journal i.store st ≡ some (st', s')
        → (c : RequestRecord) × (out : Replayed) × (get_record r i.store ≡ some c)
          × (replay_from_journal_index r source st' ≡ some out)
          × (out.rebuilt ≡ some c)
          × (entries r out.journal ≡ entries r i.journal)
          × (is_json_record c ≡ true → read_terminal_snapshot p r st' ≡ some c)
  unfolding replay_from_journal_index read_journal_index read_terminal_snapshot view
  replay-persisted law cs t r now source st st' s' archived done =
      let i = perform_all cs (started t) in
      let (c, live, _, index, snapshot) =
        persisted-loads law r now i.journal i.store s' st st' done in
      let (out, answers, same_record, same_log) = replay-rebuilds cs t r source c live archived in
      let index_read : read_journal_index p r st' ≡ some (entries r i.journal) =
        ap (λ o. o >>= (λ d. entries_of p d)) index in
      (
        c,
        out,
        live,
        ap (λ o. o >>= (λ es. replay_journal (map (λ e. e.event_id) es) source none none))
              index_read
            ∙ ap (λ xs. replay_journal xs source none none) (sym (requests-IsKept cs t r).named)
            ∙ answers,
        same_record,
        same_log,
        λ fits. ap (λ o. o >>= (λ d. record_of p d)) (snapshot fits),
      )
