-- ===== src/Rsm/Recovery/Checkpoints.antt =====
-- src/rsm/recovery.py: bounded recovery, from a checkpoint and the events after it.
use mathlib.Core.Path.{subst}
use absolute_zero.Prelude.{
  suc, String, ◌≡◌, refl, sym, ap, ◌∙◌, inl, inr, true, false, Option, none, some, List, [], ◌∷◌,
  ◌++◌, map, elem, length, length-append, arith, str_eq, eq_iff, eq_refl, ◌>>=◌, All, append-nil,
  append_assoc, or_else, Option-cases,
}
use absolute_zero.Prelude.Dict.{get-put}
use absolute_zero.Value.{ℤ}
use absolute_zero.Rsm.Transitions.{active}
use absolute_zero.Rsm.Record.{RequestRecord}
use absolute_zero.Rsm.Journal.{Entry, Journal, ids, entries, has, new_journal}
use absolute_zero.Rsm.Reducers.{Event}
use absolute_zero.Rsm.Store.{Store, new_store, get_record, state_of, seed, plant}
use absolute_zero.Rsm.Telemetry.{Telemetry}
use absolute_zero.Rsm.Ingest.{new_ingest}
use absolute_zero.Rsm.Persistence.{
  Port, checkpoint_key, checkpoint_index_key, checkpoint, latest_seq, is_json_record, Checkpoint,
  load, read_checkpoint, write_checkpoint, last_seq, seq_of, checkpoint_of,
}
use absolute_zero.Rsm.Requests.{View, view}
use absolute_zero.Rsm.Requests.Kept.{
  IsKept, Step-IsKept, requests-IsKept, started, Numbered, distinct,
}
use absolute_zero.Rsm.Requests.Views.{append-ids}
use absolute_zero.Rsm.Requests.Steps.{Call, perform_all, perform_all-keeps}
use absolute_zero.Rsm.Recovery.{Replayed, replayed, replay_journal}
use absolute_zero.Rsm.Recovery.Rebuilds.{applied_events, process_events, perform_all-Mirrors}
use absolute_zero.Rsm.Recovery.Replay.{
  id_of, last_of, replay_events-process, applied-requests, mirrored,
}
use absolute_zero.Rsm.Recovery.Stored.{IsStorage, written-load, append_all, replay_from_checkpoint}

distinct-fresh :
    (xs ys : List String) (e : String) → distinct (xs ++ e ∷ ys) ≡ true → elem e xs ≡ false
distinct-fresh [] ys e h = refl
distinct-fresh (x ∷ xs) ys e h =
    ground
      (arith, distinct-fresh xs ys e, elem-between x e xs ys, eq_iff e x, eq_iff x e, eq_refl x)
  where
    elem-between :
        (d e : String) (xs ys : List String) → str_eq d e ≡ true → elem d (xs ++ e ∷ ys) ≡ true
    elem-between d e [] ys same = ground arith
    elem-between d e (x ∷ xs) ys same = ground (arith, elem-between d e xs ys same)

-- The journal of a checkpoint, built again from its prefix.
append_all-rebuilds :
    (p : Port) (r : String) (es : List Entry) (j : Journal)
    → Numbered (length (entries r j)) (map (λ e. e.seq) es)
    → distinct (ids r j ++ map (λ e. e.event_id) es) ≡ true
    → (j' : Journal) × (append_all p r es j ≡ some j')
      × (ids r j' ≡ ids r j ++ map (λ e. e.event_id) es)
      × (entries r j' ≡ entries r j ++ es)
unfolding append_all has
append_all-rebuilds p r [] j numbers once =
    (j, refl, sym (append-nil (ids r j)), sym (append-nil (entries r j)))
append_all-rebuilds p r (e ∷ es) j numbers once =
    let fresh = distinct-fresh (ids r j) (map (λ x. x.event_id) es) e.event_id once in
    let (j1, done, ids_here, log_here, _, _) = append-ids r e.event_id e.reducer_version j fresh in
    let log : entries r j1 ≡ entries r j ++ e ∷ [] =
      log_here
      ∙ ap
          (λ n.
            entries r j
            ++ record { event_id = e.event_id; seq = n; reducer_version = e.reducer_version } ∷ [])
          (sym numbers.0) in
    let size : length (entries r j1) ≡ suc (length (entries r j)) =
      omega (arith, ap length log, length-append (entries r j) (e ∷ [])) in
    let (j2, rest, ids_all, log_all) =
      append_all-rebuilds p r es j1
        (subst (λ n. Numbered n (map (λ x. x.seq) es)) (sym size) numbers.1)
        (ap (λ xs. distinct (xs ++ map (λ x. x.event_id) es)) ids_here
          ∙ ap distinct (append_assoc (ids r j) (e.event_id ∷ []) (map (λ x. x.event_id) es))
          ∙ once) in
    (
      j2,
      ap (λ o. o >>= (λ out. append_all p r es out.1)) done ∙ rest,
      ids_all
          ∙ ap (λ xs. xs ++ map (λ x. x.event_id) es) ids_here
          ∙ append_assoc (ids r j) (e.event_id ∷ []) (map (λ x. x.event_id) es),
      log_all ∙ ap (λ xs. xs ++ es) log ∙ append_assoc (entries r j) (e ∷ []) es,
    )

view_eq :
    (v w : View)
    → v.state ≡ w.state
    → v.current ≡ w.current
    → v.seen ≡ w.seen
    → v.log ≡ w.log
    → v ≡ w
view_eq v w a b c d = ground arith

create_reads :
    (r : String) (c : RequestRecord)
    → (state_of r (plant r c new_store) ≡ active) × (get_record r (plant r c new_store) ≡ some c)
unfolding state_of get_record
create_reads r c = (
  ground (arith, get-put r r active new_store.states, eq_refl r),
  ground (arith, get-put r r c new_store.active_records, eq_refl r),
)

module _ (p : Port) where
  open p use {Storage, Bytes, write, read, dumps, loads}

  -- What `write_checkpoint` leaves, if it returns.
  checkpoint-loads :
      IsStorage p
      → (r : String) (j : Journal) (s : Store) (st st' : Storage) (doc : Checkpoint)
      → write_checkpoint p r j s st ≡ some (doc, st')
      → is_json_record doc.record_then ≡ true
      → (get_record r s ≡ some doc.record_then)
        × (doc.journal_prefix ≡ entries r j)
        × (read_checkpoint p r none st' ≡ some doc)
  unfolding write_checkpoint read_checkpoint load
  checkpoint-loads law r j s st st' doc done fits = elim (Option-cases (get_record r s)) [
    | inl missing ↦ absurd (ground arith)
    | inr (c, live) ↦
        let n = last_seq p (entries r j) in
        let made : Checkpoint = record {
          request_id = r;
          seq = n;
          journal_prefix = entries r j;
          record_then = c;
        } in
        elim (Option-cases (write (checkpoint_key r n) (dumps (checkpoint made)) st)) [
          | inl failed ↦ absurd (ground arith)
          | inr (st1, first) ↦
              elim (Option-cases (write (checkpoint_index_key r) (dumps (latest_seq n)) st1)) [
                | inl failed ↦ absurd (ground arith)
                | inr (st2, second) ↦
                    let ends : write_checkpoint p r j s st ≡ some (made, st2) =
                      rw (write_checkpoint, live, first, second) refl in
                    let same = ap (λ o. or_else o (made, st2)) (sym ends ∙ done) in
                    subst
                      (λ x.
                        (get_record r s ≡ some x.0.record_then)
                        × (x.0.journal_prefix ≡ entries r j)
                        × (read_checkpoint p r none x.1 ≡ some x.0))
                      same
                      (
                        live,
                        refl,
                        found made n st1 st2 first second
                            (subst (λ x. is_json_record x.0.record_then ≡ true) (sym same) fits),
                      )
              ]
        ]
  ]
    where
      found :
          (made : Checkpoint) (n : ℤ) (st1 st2 : Storage)
          → write (checkpoint_key r n) (dumps (checkpoint made)) st ≡ some st1
          → write (checkpoint_index_key r) (dumps (latest_seq n)) st1 ≡ some st2
          → is_json_record made.record_then ≡ true
          → read_checkpoint p r none st2 ≡ some made
      found made n st1 st2 first second json =
          let kept : load p (checkpoint_key r n) st2 ≡ some (checkpoint made) =
            ap (λ o. o >>= (λ bytes. loads bytes))
              (law.keeps_other (checkpoint_index_key r) (checkpoint_key r n) (dumps (latest_seq n))
                st1 st2 (λ h. cc h) second)
            ∙ written-load p law (checkpoint_key r n) (checkpoint made) st st1 json first in
          ap
            (λ o.
              ((o >>= (λ d. seq_of p d)) >>= (λ k. load p (checkpoint_key r k) st2))
              >>= (λ d. checkpoint_of p d))
            (written-load p law (checkpoint_index_key r) (latest_seq n) st1 st2 refl second)
          ∙ ap (λ o. o >>= (λ d. checkpoint_of p d)) kept

  -- Bounded recovery: if a checkpoint of an active request is written, with a record whose tables
  -- have texts for keys, then after any further calls, the replay from the latest checkpoint of
  -- only the events that were applied since it gives the record of the request, if it is still
  -- there, and its whole journal.
  pub replay-checkpoint :
      IsStorage p
      → (cs since : List Call) (t : Option Telemetry) (r : String) (source : String → Option Event)
        (st st' : Storage) (doc : Checkpoint) (c : RequestRecord)
      → let i = perform_all cs (started t) in
        state_of r i.store ≡ active
        → write_checkpoint p r i.journal i.store st ≡ some (doc, st')
        → is_json_record doc.record_then ≡ true
        → All (λ event. source (id_of event) ≡ some event) (applied_events r since i)
        → get_record r (perform_all since i).store ≡ some c
        → (out : Replayed) × (replay_from_checkpoint p r
              (map id_of (applied_events r since i))
              source
              none
              st'
            ≡ some out)
          × (get_record r out.store ≡ some c)
          × (entries r out.journal ≡ entries r (perform_all since i).journal)
  unfolding replay_from_checkpoint replay_journal view state_of get_record ids entries seed
  replay-checkpoint law cs since t r source st st' doc c going written json archived live =
      let i = perform_all cs (started t) in
      let kept = requests-IsKept cs t r in
      let (then', prefix, reads) =
        checkpoint-loads law r i.journal i.store st st' doc written json in
      let (j, built, same_ids, same_log) =
        append_all-rebuilds p r (entries r i.journal) new_journal kept.numbered
          (ap distinct (sym kept.named) ∙ kept.once) in
      let s0 = plant r doc.record_then new_store in
      let j0 = new_ingest s0 j none in
      let reads0 = create_reads r doc.record_then in
      let same_view : view r j0 ≡ view r i =
        view_eq (view r j0) (view r i) (reads0.0 ∙ sym going) (reads0.1 ∙ sym then')
          (same_ids ∙ sym kept.named) same_log in
      let events = applied_events r since i in
      let out = replayed (process_events events j0) (last_of r events none) in
      let kept_later = perform_all-keeps r (IsKept r) (Step-IsKept r) since i kept in
      let (same_record, whole_log) =
        mirrored (view r (perform_all since i)) (view r (process_events events j0)) c
          (perform_all-Mirrors r since i j0 (inl same_view)) kept_later.materialized live in
      (
        out,
        ap
              (λ o. o >>= (λ d. seed r d.record_then new_store >>= (λ x.
                append_all p r d.journal_prefix new_journal
                >>= (λ y. replay_journal (map id_of events) source (some x) (some y)))))
              reads
            ∙ ap
                (λ es.
                  append_all p r es new_journal
                  >>= (λ y. replay_journal (map id_of events) source (some s0) (some y)))
                prefix
            ∙ ap (λ o. o >>= (λ y. replay_journal (map id_of events) source (some s0) (some y)))
                built
            ∙ replay_events-process source r events j0 none archived (applied-requests r since i),
        same_record,
        whole_log,
      )
