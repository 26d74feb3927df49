-- ===== src/Kernel/Safety/Replans.antt =====
-- src/kernel/coordinator.py: the replan counts of a run under checked snapshots.
use mathlib.Core.Path.{subst}
use absolute_zero.Prelude.{
  ℕ, ◌+◌, ◌≤◌, ◌==◌, ltb, ltb→lt, String, ◌≡◌, ◌∙◌, ap, sym, inl, inr, Bool, true, false, Option,
  none, some, List, [], ◌∷◌, ◌&&◌, elem, All, all_of, all_of-elem, arith, str_eq, eq_iff,
  Bool-cases, if◌then◌else◌,
}
use absolute_zero.Prelude.Dict
use absolute_zero.Prelude.Dict.{get-put, get-remove}
use absolute_zero.Value.{Value}
use absolute_zero.Kernel.Config.{ConfigView, Row, Rows, rows, read}
use absolute_zero.Kernel.Config.Choice.{last_row-all_of}
use absolute_zero.Kernel.Ledger.{RequestState, Ledger, new_request, store, evict}
use absolute_zero.Kernel.Record.{Info, Core, do_action, do_actions, moved}
use absolute_zero.Kernel.Telemetry.{Outside}
use absolute_zero.Kernel.Coordinator.{choose, guard_holds, row_applies, done, run}
use absolute_zero.Kernel.Coordinator.Picking.{pick_row-Passes}
use absolute_zero.Kernel.Coordinator.Handling.{Installs, run-Ends}
use absolute_zero.Kernel.Recovery.{start}
use absolute_zero.Kernel.Recovery.Start.{start-IsSound}
use absolute_zero.Kernel.Safety.{
  lifecycle_states, work_events, row_is_birth, rows_pass, is_gated, is_guarded, replans, no_replan,
  row_is_counted, work_is_counted, birth_is_counted, routing_is_counted, replans_are_counted,
}
use absolute_zero.Kernel.Safety.Gated.{gated-events, gated-birth}
use absolute_zero.Kernel.Safety.Completion.{
  AllGood, Step-AllGood, event-work, choose-is_birth, rows_pass-some, chain-routing,
}
use absolute_zero.Kernel.Steps.{
  Step, work, birth, chained, installed, duplicate, session, cleaned, Reach, here, next,
}
use absolute_zero.Kernel.Steps.Sound.{IsSound, Step-IsSound}

replan_count-do_action :
    (a : String) (entry : RequestState) (event : String) (info : Info)
    → (do_action a entry event info).replan_count
      ≡ (if str_eq "increment_replan" a then entry.replan_count + 1 else entry.replan_count)
unfolding do_action
replan_count-do_action a entry event info = ground (
  arith,
  eq_iff a "record_verdict",
  eq_iff a "increment_replan",
  eq_iff "increment_replan" a,
  eq_iff "record_verdict" "increment_replan",
)

replan_count-do_actions :
    (as' : List String) (entry : RequestState) (event : String) (info : Info)
    → (do_actions as' entry event info).replan_count ≡ entry.replan_count + replans as'
unfolding do_actions
replan_count-do_actions [] entry event info = omega arith
replan_count-do_actions (a ∷ as') entry event info = ground (
  arith,
  replan_count-do_actions as' (do_action a entry event info) event info,
  replan_count-do_action a entry event info,
)

-- A snapshot that passes the checks, and allows at most `bound` replans.
abbrev pub IsCounted : ℕ → ConfigView → Type 0
IsCounted bound cfg =
    (is_gated cfg ≡ true) × (replans_are_counted cfg ≡ true) × (cfg.max_replans ≤ bound)

both : (a b c : Bool) → (a && b && c) ≡ true → (a ≡ true) × (b ≡ true) × (c ≡ true)
both a b c h = ground arith

module _ (cfg : ConfigView) (fit : replans_are_counted cfg ≡ true) where
  counted-parts :
      (work_is_counted cfg ≡ true) × (birth_is_counted cfg ≡ true) × (routing_is_counted cfg ≡ true)
  unfolding replans_are_counted
  counted-parts = both (work_is_counted cfg) (birth_is_counted cfg) (routing_is_counted cfg) fit

  counted-rows :
      (state event : String)
      → elem state lifecycle_states ≡ true
      → elem event work_events ≡ true
      → rows_pass row_is_counted (rows cfg state event) ≡ true
  unfolding work_is_counted
  counted-rows state event hs he =
      all_of-elem (λ e. rows_pass row_is_counted (rows cfg state e)) work_events event
        (all_of-elem (λ s. all_of (λ e. rows_pass row_is_counted (rows cfg s e)) work_events)
          lifecycle_states state counted-parts.0 hs)
        he

  counted-birth : rows_pass no_replan (rows cfg "created" "request.received") ≡ true
  unfolding birth_is_counted
  counted-birth = counted-parts.1

  counted-routing :
      (state : String)
      → elem state lifecycle_states ≡ true
      → rows_pass no_replan (rows cfg state "__routing__") ≡ true
  unfolding routing_is_counted
  counted-routing state hs =
      all_of-elem (λ s. rows_pass no_replan (rows cfg s "__routing__")) lifecycle_states state
        counted-parts.2 hs

choose-no_replan :
    (rs : Rows) (guard : Bool)
    → (no_replan rs.first && all_of no_replan rs.others) ≡ true
    → no_replan (choose rs guard) ≡ true
choose-no_replan rs true h = ground arith
choose-no_replan rs false h = last_row-all_of no_replan rs h

-- A row that counts a replan has seen that some are left.
guard-left :
    (row : Row) (entry : RequestState) (cfg : ConfigView)
    → is_guarded "replans_remaining" row ≡ true
    → row_applies row entry cfg ≡ true
    → ltb entry.replan_count cfg.max_replans ≡ true
unfolding guard_holds
guard-left row entry cfg g applies = of_when row.when g applies
  where
    of_when :
        (w : Option String)
        → elim w [ none ↦ false | some name ↦ str_eq name "replans_remaining" ] ≡ true
        → elim w [ none ↦ true | some name ↦ guard_holds name entry cfg ] ≡ true
        → ltb entry.replan_count cfg.max_replans ≡ true
    of_when none g h = absurd (cc g)
    of_when (some name) g h =
        let same : name ≡ "replans_remaining" = ground (arith, eq_iff name "replans_remaining") in
        ap (λ (n : String). guard_holds n entry cfg) (sym same) ∙ h

module _ (bound : ℕ) where
  abbrev Bounded : Ledger → Type 0
  Bounded l =
      (rid : String) (entry : RequestState)
      → Dict.get rid l ≡ some entry
      → entry.replan_count ≤ bound

  store-Bounded :
      (entry : RequestState) (l : Ledger)
      → entry.replan_count ≤ bound
      → Bounded l
      → Bounded (store entry l)
  unfolding store
  store-Bounded entry l b h rid found e = elim (Bool-cases (str_eq entry.request_id rid)) [
    | inl own ↦
        let same : entry ≡ found = ground (arith, get-put entry.request_id rid entry l) in
        subst (λ (x : RequestState). x.replan_count ≤ bound) same b
    | inr other ↦ h rid found (ground (arith, get-put entry.request_id rid entry l))
  ]

  evict-Bounded : (rid : String) (l : Ledger) → Bounded l → Bounded (evict rid l)
  unfolding evict
  evict-Bounded rid l h j found e = h j found (ground (arith, get-remove rid j l))

  moved-bound :
      (entry : RequestState) (event event_id : String) (row : Row) (info : Info)
      → entry.replan_count + replans row.actions ≤ bound
      → (moved entry event (some event_id) row info).replan_count ≤ bound
  moved-bound entry event event_id row info h =
      omega (arith, h, replan_count-do_actions row.actions entry event info)

  counted-bound :
      (row : Row) (entry : RequestState) (cfg : ConfigView)
      → row_is_counted row ≡ true
      → row_applies row entry cfg ≡ true
      → cfg.max_replans ≤ bound
      → entry.replan_count ≤ bound
      → entry.replan_count + replans row.actions ≤ bound
  unfolding row_is_counted
  counted-bound row entry cfg counted applies most h =
      elim (Bool-cases (replans row.actions == 0)) [
        | inl idle ↦ let n : replans row.actions ≡ 0 = ground arith in omega (arith, n, h)
        | inr some_left ↦
            let n : replans row.actions ≡ 1 = ground arith in
            let left =
              ltb→lt entry.replan_count cfg.max_replans
                (guard-left row entry cfg (ground arith) applies) in
            omega (arith, n, left, most)
      ]

  idle-bound :
      (row : Row) (entry : RequestState)
      → no_replan row ≡ true
      → entry.replan_count ≤ bound
      → entry.replan_count + replans row.actions ≤ bound
  idle-bound row entry idle h =
      let n : replans row.actions ≡ 0 = ground arith in omega (arith, n, h)

  -- Every step of the coordinator keeps the bound.
  Step-Bounded :
      {s t : Core}
      → Step (IsCounted bound) s t
      → IsSound (IsCounted bound) s
      → AllGood s.ledger
      → Bounded s.ledger
      → Bounded t.ledger
  Step-Bounded {s}
        (work entry event eid rs row guard cfg asked other known versioned tabled picked e) sound
        good h =
      let fit = sound.checked cfg.version cfg versioned in
      let here_fit = sound.checked s.config.version s.config sound.current in
      let entry_good = good entry.request_id entry known in
      let event_known =
        event-work event (gated-events s.config here_fit.0 event asked.inbound) asked.no_config
          asked.no_session other in
      let passes =
        pick_row-Passes row_is_counted entry cfg row guard rs
          (rows_pass-some row_is_counted _ rs
            (counted-rows cfg fit.1 entry.lifecycle_state event entry_good.known event_known)
            tabled)
          picked in
      rw e (
        store-Bounded (moved entry event (some eid) row []) s.ledger
          (moved-bound entry event eid row []
            (counted-bound row entry cfg passes.0 passes.1 fit.2 (h entry.request_id entry known)))
          h)
  Step-Bounded {s} (birth rid declared eid info rs guard cfg _ _ versioned tabled e) sound good h =
      let entry = new_request rid declared cfg.version in
      let fit = sound.checked cfg.version cfg versioned in
      let idle =
        choose-no_replan rs guard
          (rows_pass-some no_replan _ rs (counted-birth cfg fit.1) tabled) in
      rw e (
        store-Bounded (moved entry "request.received" (some eid) (choose rs guard) info)
          (store entry s.ledger)
          (moved-bound entry "request.received" eid (choose rs guard) info
            (idle-bound (choose rs guard) entry idle (omega arith)))
          (store-Bounded entry s.ledger (omega arith) h))
  Step-Bounded {s}
        (chained entry event eid info from rs permitted guard cfg known versioned first linked named
          tabled e)
        sound good h =
      let fit = sound.checked cfg.version cfg versioned in
      let entry_good = good entry.request_id entry known in
      let birth_row =
        choose-is_birth from permitted
          (rows_pass-some row_is_birth _ from (gated-birth cfg fit.0) first) in
      let routing : event ≡ "__routing__" =
        chain-routing (choose from permitted) event birth_row linked named in
      let idle = choose-no_replan rs guard (
        rows_pass-some no_replan _ rs
          (counted-routing cfg fit.1 entry.lifecycle_state entry_good.known)
          (ap (rows cfg entry.lifecycle_state) (sym routing) ∙ tabled)) in
      rw e (
        store-Bounded (moved entry event (some eid) (choose rs guard) info) s.ledger
          (moved-bound entry event eid (choose rs guard) info
            (idle-bound (choose rs guard) entry idle (h entry.request_id entry known)))
          h)
  Step-Bounded {s} (installed snap _ q e) sound good h = rw e h
  Step-Bounded {s} (duplicate entry eid event _ e) sound good h = rw e h
  Step-Bounded {s} (session name v _ _ e) sound good h = rw e h
  Step-Bounded {s} (cleaned rid entry _ _ e) sound good h = rw e (evict-Bounded rid s.ledger h)

  record Held (s : Core) : Type 0 where
    good : AllGood s.ledger
    bounded : Bounded s.ledger
    sound : IsSound (IsCounted bound) s

  Reach-Held : {s t : Core} → Reach (IsCounted bound) s t → Held s → Held t
  Reach-Held here h = h
  Reach-Held (next {t} before st) h =
      let k = Reach-Held before h in
      record {
        good = Step-AllGood (λ cfg q. q.0) st k.sound k.good;
        bounded = Step-Bounded st k.sound k.good k.bounded;
        sound = Step-IsSound st k.sound;
      }

-- Take a run of the coordinator over any envelopes, bus and clock, from a start on a snapshot that
-- passes the checks of the gates and of the replans and whose `max_replans` is at most a bound,
-- where no envelope installs a snapshot of which this is not so. If no call raises, then at the end
-- of the run the replan count of every request of the ledger is at most the bound.
pub replan_count-bounded :
    (bound : ℕ) (o : Outside) (snap : Value) (w : o.World) (envs : List Value) (rid : String)
    (entry : RequestState)
    → IsCounted bound (read snap)
    → All (Installs (IsCounted bound)) envs
    → (run o envs (start o snap w)).0 ≡ done
    → Dict.get rid (run o envs (start o snap w)).1.ledger ≡ some entry
    → entry.replan_count ≤ bound
unfolding Dict.get
replan_count-bounded bound o snap w envs rid entry fit fits ended found =
    let sound = start-IsSound o snap w fit in
    let grown = run-Ends o envs (start o snap w) sound fits ended in
    let first : Held bound (start o snap w).core = record {
      good = λ j e k. absurd (cc k);
      bounded = λ j e k. absurd (cc k);
      sound = sound;
    } in
    (Reach-Held bound grown.reached first).bounded rid entry found
