-- ===== src/Kernel/Recovery/Soundness.antt =====
-- src/kernel/coordinator.py: what `recover` accepts, and how it ends.
use mathlib.Core.Path.{subst}
use absolute_zero.Prelude.{
  ℕ, String, ◌≡◌, ◌∙◌, refl, ap, inl, inr, Bool, true, false, Option, none, some, List, [], ◌∷◌,
  ◌++◌, arith, eq_iff, sym, Option-cases, append_assoc, append-nil,
}
use absolute_zero.Prelude.Dict
use absolute_zero.Prelude.Dict.{get-put}
use absolute_zero.Kernel.Config.{ConfigView, Row, Rows, rows}
use absolute_zero.Kernel.Ledger.{RequestState, Ledger, store}
use absolute_zero.Kernel.Record.{LogRecord, Configs, Core, get_config, record_of}
use absolute_zero.Kernel.Telemetry.{Outside}
use absolute_zero.Kernel.Telemetry.Silent.{core-fault, halted-fault}
use absolute_zero.Kernel.Coordinator.{choose}
use absolute_zero.Kernel.Recovery.Steps.{accepted}
use absolute_zero.Kernel.Recovery.RoundTrip.{log-accepted, core-republish}
use absolute_zero.Kernel.Recovery.{
  Replayed, deviation, skipped, applied, replay, replay_entry, replay_row, replay_transition,
  replay_all, recover, republish, give_up, same_record, eq_strings, C,
}

eq_strings_sound : (xs ys : List String) → eq_strings xs ys ≡ true → xs ≡ ys
unfolding eq_strings
eq_strings_sound [] [] h = refl
eq_strings_sound (x ∷ xs) (y ∷ ys) h = ground (arith, eq_iff x y, eq_strings_sound xs ys)
eq_strings_sound [] (y ∷ ys) h = absurd (cc h)
eq_strings_sound (x ∷ xs) [] h = absurd (cc h)

-- What an accepted transition record says, against the table and the rebuilt request.
pub record Agrees (rec : LogRecord) (entry : RequestState) (row : Row) (cfg : ConfigView)
    (configs : Configs) (t : Core) : Type 0 where
  pub rs : Rows
  pub version : get_config rec.config_version configs ≡ some cfg
  pub tabled : rows cfg rec.prior_state rec.event ≡ some rs
  pub chosen : row ≡ choose rs rec.guard_result
  pub next_state : rec.next_state ≡ row.next
  pub emitted : rec.emitted_events ≡ row.emit
  pub state : entry.lifecycle_state ≡ rec.next_state
  pub sequence : entry.transition_sequence ≡ rec.sequence
  pub stored : Dict.get entry.request_id t.ledger ≡ some entry

same_record-next :
    (a b : LogRecord)
    → same_record a b ≡ true
    → (b.next_state ≡ a.next_state)
      × (b.emitted_events ≡ a.emitted_events)
      × (b.sequence ≡ a.sequence)
unfolding same_record
same_record-next a b h =
    ground
      (arith, eq_iff a.next_state b.next_state, eq_strings_sound a.emitted_events b.emitted_events)

get-store :
    (entry : RequestState) (l : Ledger) → Dict.get entry.request_id (store entry l) ≡ some entry
unfolding store
get-store entry l = ground (
  arith,
  get-put entry.request_id entry.request_id entry l,
  eq_iff entry.request_id entry.request_id,
)

replay_row-Agrees :
    (rec : LogRecord) (old entry : RequestState) (row : Row) (cfg : ConfigView) (s t : Core)
    → get_config rec.config_version s.configs ≡ some cfg
    → replay_row rec old cfg s ≡ applied entry row cfg t
    → Agrees rec entry row cfg s.configs t
unfolding replay_row
replay_row-Agrees rec old entry row cfg s t versioned e =
    elim (Option-cases (rows cfg old.lifecycle_state rec.event)) [
      | inl missing ↦ absurd (ground arith)
      | inr (rs, tabled) ↦
          let prior : old.lifecycle_state ≡ rec.prior_state =
            ground (arith, eq_iff old.lifecycle_state rec.prior_state) in
          let expected =
            record_of old rec.event rec.event_id (choose rs rec.guard_result) rec.guard_result cfg
              rec.info in
          let same : same_record expected rec ≡ true = ground arith in
          let chosen : row ≡ choose rs rec.guard_result = ground arith in
          let stored : t.ledger ≡ store entry s.ledger = ground arith in
          let (next, emitted, _) = same_record-next expected rec same in
          record {
            rs = rs;
            version = versioned;
            tabled = ap (λ (p : String). rows cfg p rec.event) (sym prior) ∙ tabled;
            chosen = chosen;
            next_state = next ∙ ap (λ (r : Row). r.next) (sym chosen);
            emitted = emitted ∙ ap (λ (r : Row). r.emit) (sym chosen);
            state = ground arith;
            sequence = ground arith;
            stored = ap (Dict.get entry.request_id) stored ∙ get-store entry s.ledger;
          }
    ]

replay_row-cfg :
    (rec : LogRecord) (old entry : RequestState) (row : Row) (pinned cfg : ConfigView) (s t : Core)
    → replay_row rec old pinned s ≡ applied entry row cfg t
    → pinned ≡ cfg
unfolding replay_row
replay_row-cfg rec old entry row pinned cfg s t e =
    elim (Option-cases (rows pinned old.lifecycle_state rec.event)) [
      | inl missing ↦ absurd (ground arith)
      | inr (rs, tabled) ↦ ground arith
    ]

replay_transition-cfg :
    (rec : LogRecord) (entry : RequestState) (row : Row) (pinned cfg : ConfigView) (s t : Core)
    → replay_transition rec pinned s ≡ applied entry row cfg t
    → pinned ≡ cfg
unfolding replay_transition
replay_transition-cfg rec entry row pinned cfg s t e =
    elim (Option-cases (Dict.get rec.request_id s.ledger)) [
      | inl new ↦ elim (Option-cases (replay_entry rec none)) [
        | inl unknown ↦ absurd (ground arith)
        | inr (old, born) ↦
            replay_row-cfg rec old entry row pinned cfg (record s { ledger = store old s.ledger }) t
              (ground arith)
      ]
      | inr (old, known) ↦ replay_row-cfg rec old entry row pinned cfg s t (ground arith)
    ]

replay_transition-Agrees :
    (rec : LogRecord) (entry : RequestState) (row : Row) (cfg : ConfigView) (s t : Core)
    → get_config rec.config_version s.configs ≡ some cfg
    → replay_transition rec cfg s ≡ applied entry row cfg t
    → Agrees rec entry row cfg s.configs t
unfolding replay_transition
replay_transition-Agrees rec entry row cfg s t versioned e =
    elim (Option-cases (Dict.get rec.request_id s.ledger)) [
      | inl new ↦ elim (Option-cases (replay_entry rec none)) [
        | inl unknown ↦ absurd (ground arith)
        | inr (old, born) ↦
            replay_row-Agrees rec old entry row cfg (record s { ledger = store old s.ledger }) t
              versioned (ground arith)
      ]
      | inr (old, known) ↦ replay_row-Agrees rec old entry row cfg s t versioned (ground arith)
    ]

-- Replay applies a record as a transition only if the snapshot of its version is installed, the
-- rows of the table for its prior state and event exist, its next state and its emissions are
-- those of the row that its decision selects, and the rebuilt request ends in its next state
-- and under its sequence number.
pub replay-Agrees :
    (rec : LogRecord) (entry : RequestState) (row : Row) (cfg : ConfigView) (s t : Core)
    → replay rec s ≡ applied entry row cfg t
    → Agrees rec entry row cfg s.configs t
unfolding replay
replay-Agrees rec entry row cfg s t e =
    elim (Option-cases (get_config rec.config_version s.configs)) [
      | inl missing ↦ absurd (ground arith)
      | inr (pinned, versioned) ↦
          let applies : replay_transition rec pinned s ≡ applied entry row cfg t = ground arith in
          let same : pinned ≡ cfg = replay_transition-cfg rec entry row pinned cfg s t applies in
          replay_transition-Agrees rec entry row cfg s t (versioned ∙ ap some same)
            (ap (λ (p : ConfigView). replay_transition rec p s) (sym same) ∙ applies)
    ]

module _ (o : Outside) (published : Option (List (String × ℕ))) where
  -- How a replay from a given state ends: with all the records taken, or halted at one of them.
  pub data Ended (before : List LogRecord) (records : List LogRecord) (r : Bool × C o)
      : Type 0 where
    all_taken : r.0 ≡ true → r.1.log ≡ before ++ records → Ended before records r
    stopped :
        (taken : List LogRecord) (bad : LogRecord) (rest : List LogRecord)
        → r.0 ≡ false
        → r.1.halted ≡ true
        → records ≡ taken ++ bad ∷ rest
        → r.1.log ≡ before ++ taken
        → Ended before records r

  -- One more record taken before.
  Ended-later :
      (log : List LogRecord) (rec : LogRecord) (records : List LogRecord) (r : Bool × C o)
      → Ended (log ++ rec ∷ []) records r
      → Ended log (rec ∷ records) r
  Ended-later log rec records r (all_taken ok same) =
      all_taken ok (same ∙ append_assoc log (rec ∷ []) records)
  Ended-later log rec records r (stopped taken bad rest failed halted split same) =
      stopped (rec ∷ taken) bad rest failed halted (ap (λ rs. rec ∷ rs) split)
        (same ∙ append_assoc log (rec ∷ []) taken)

  log-deviation : (rec : LogRecord) (s t : Core) → replay rec s ≡ deviation t → t.log ≡ s.log
  unfolding replay replay_transition replay_row
  log-deviation rec s t e = ground arith

  after-Ended :
      (x : Replayed) (rec : LogRecord) (records : List LogRecord) (c : C o)
      → replay rec c.core ≡ x
      → ((d : C o) → Ended d.log records (replay_all o records published d))
      → Ended c.log (rec ∷ records) (elim x [
        | deviation t ↦ (false, give_up o rec (record c { core = t }))
        | skipped t ↦ replay_all o records published (record c { core = t })
        | applied entry row cfg t ↦
            replay_all o records published
              (republish o published rec entry row cfg (record c { core = t }))
      ])
  unfolding give_up
  after-Ended (deviation t) rec records c e rest =
      stopped [] rec records refl (halted-fault o _ none _ refl) refl (
        ap (λ (s : Core). s.log) (core-fault o _ none _)
        ∙ log-deviation rec c.core t e
        ∙ sym (append-nil c.log))
  after-Ended (skipped t) rec records c e rest = Ended-later c.log rec records _ (
      subst (λ log. Ended log records (replay_all o records published (record c { core = t })))
        (log-accepted rec c.core t (ap accepted e)) (rest (record c { core = t })))
  after-Ended (applied entry row cfg t) rec records c e rest =
      let d = republish o published rec entry row cfg (record c { core = t }) in
      let same : d.log ≡ c.log ++ rec ∷ [] =
        ap (λ (s : Core). s.log)
          (core-republish o published rec entry row cfg (record c { core = t }))
        ∙ log-accepted rec c.core t (ap accepted e) in
      Ended-later c.log rec records _
        (subst (λ log. Ended log records (replay_all o records published d)) same (rest d))

  replay_all-Ended :
      (records : List LogRecord) (c : C o) → Ended c.log records (replay_all o records published c)
  unfolding replay_all
  replay_all-Ended [] c = all_taken refl (sym (append-nil c.log))
  replay_all-Ended (rec ∷ records) c =
      after-Ended (replay rec c.core) rec records c refl (λ d. replay_all-Ended records d)

  -- `recover` returns True with all the records in its log, in order; or it returns False, halted,
  -- with the records before one of them in its log, and none after.
  pub recover-Ended :
      (records : List LogRecord) (c : C o) → Ended [] records (recover o records published c)
  unfolding recover
  recover-Ended records c = replay_all-Ended records _
