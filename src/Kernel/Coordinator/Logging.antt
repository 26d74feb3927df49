-- ===== src/Kernel/Coordinator/Logging.antt =====
-- src/kernel/coordinator.py: the steps that the handlers take.
use absolute_zero.Prelude.{
  String, ◌≡◌, ◌∙◌, refl, ap, inl, inr, true, false, Option, none, some, List, [], ◌∷◌, elem,
  or_else, str_eq, Bool-cases, Option-cases,
}
use absolute_zero.Prelude.Dict
use absolute_zero.Value.{ℤ, Fields}
use absolute_zero.Kernel.Config
use absolute_zero.Kernel.Config.{ConfigView, Row, Rows, rows, read}
use absolute_zero.Kernel.Ledger.{RequestState, terminal_states}
use absolute_zero.Kernel.Record.{Core, get_config, boundary_record, noop_record, cleanup_record}
use absolute_zero.Kernel.Telemetry.{Outside, fault, write_log}
use absolute_zero.Kernel.Telemetry.Silent.{core-fault, core-write_log}
use absolute_zero.Kernel.Coordinator.{
  C, pick_row, snapshot_of, apply, apply_under, handle_config, sweep_entry, sweep, handle_session,
  session_events,
}
use absolute_zero.Kernel.Coordinator.Effects.{core-transition}
use absolute_zero.Kernel.Steps.{
  IsRequestEvent, Step, work, installed, duplicate, session, cleaned, Reach, here, next,
  Reach-trans,
}
use absolute_zero.Kernel.Steps.Sound.{IsSound, Step-IsSound}

-- `t` is a sound state, reached from `s`.
pub record Grows (Q : ConfigView → Type 0) (s t : Core) : Type 0 where
  pub reached : Reach Q s t
  pub sound : IsSound Q t

module _ {Q : ConfigView → Type 0} where
  pub Grows-refl : {s : Core} → IsSound Q s → Grows Q s s
  Grows-refl h = record { reached = here; sound = h }

  pub Grows-trans : {s t u : Core} → Grows Q s t → Grows Q t u → Grows Q s u
  Grows-trans a b = record { reached = Reach-trans a.reached b.reached; sound = b.sound }

  pub Grows-step : {s t : Core} → IsSound Q s → Step Q s t → Grows Q s t
  Grows-step h st = record { reached = next here st; sound = Step-IsSound st h }

module _ {Q : ConfigView → Type 0} (o : Outside) where
  pub fault-Grows :
      (reason : String) (env : Option Fields) (c : C o)
      → IsSound Q c.core
      → Grows Q c.core (fault o reason env c).core
  fault-Grows reason env c h = rw (core-fault o reason env c) (Grows-refl h)

  -- The snapshot that `_apply` looks up is installed under its own version.
  pinned :
      (v : ℤ) (s : Core)
      → IsSound Q s
      → let cfg = or_else (get_config v s.configs) s.config in
        get_config cfg.version s.configs ≡ some cfg
  pinned v s h = elim (Option-cases (get_config v s.configs)) [
    | inl missing ↦ rw missing h.current
    | inr (cfg, found) ↦
        rw found (ap (λ w. get_config w s.configs) (h.versions v cfg found) ∙ found)
  ]

  apply_under-Grows :
      (cfg : ConfigView) (entry : RequestState) (event : String) (env : Fields) (c : C o)
      → IsSound Q c.core
      → get_config cfg.version c.configs ≡ some cfg
      → IsRequestEvent c.core event
      → str_eq event "request.received" ≡ false
      → Dict.get entry.request_id c.ledger ≡ some entry
      → Grows Q c.core (apply_under o cfg entry event env c).core
  unfolding apply_under
  apply_under-Grows cfg entry event env c h at_version asked other known =
      elim (Option-cases (rows cfg entry.lifecycle_state event)) [
        | inl missing ↦ rw (missing, apply_under) (fault-Grows _ _ c h)
        | inr (rs, tabled) ↦ elim (Option-cases (pick_row rs entry cfg)) [
          | inl stuck ↦ rw (tabled, stuck, apply_under) (fault-Grows _ _ c h)
          | inr ((row, guard), picked) ↦
              rw (tabled, picked, apply_under)
                (rw (core-transition o entry event _ row guard cfg [] c) (
                  Grows-step h (
                    work entry event _ rs row guard cfg asked other known at_version tabled picked
                      refl)))
        ]
      ]

  pub apply-Grows :
      (entry : RequestState) (event : String) (env : Fields) (c : C o)
      → IsSound Q c.core
      → IsRequestEvent c.core event
      → str_eq event "request.received" ≡ false
      → Dict.get entry.request_id c.ledger ≡ some entry
      → Grows Q c.core (apply o entry event env c).core
  unfolding apply
  apply-Grows entry event env c h =
      apply_under-Grows _ entry event env c h (pinned entry.config_version c.core h)

  pub noop-Grows :
      (entry : RequestState) (event_id event : String) (c : C o)
      → IsSound Q c.core
      → IsRequestEvent c.core event
      → Grows Q c.core (write_log o (noop_record entry event_id event "duplicate") c).core
  noop-Grows entry event_id event c h asked =
      rw (core-write_log o (noop_record entry event_id event "duplicate") c)
        (Grows-step h (duplicate entry event_id event asked refl))

  pub handle_config-Grows :
      (env : Fields) (c : C o)
      → IsSound Q c.core
      → (Config.validate (snapshot_of env) ≡ none → Q (read (snapshot_of env)))
      → Grows Q c.core (handle_config o env c).core
  unfolding handle_config
  handle_config-Grows env c h fit =
      let snap = snapshot_of env in
      elim (Option-cases (Config.validate snap)) [
        | inl valid ↦
            rw (valid, handle_config)
              (rw
                (core-write_log o (boundary_record "config.changed" (read snap).version (some snap))
                  _)
                (Grows-step h (installed snap valid (fit valid) refl)))
        | inr (reason, invalid) ↦ rw (invalid, handle_config) (fault-Grows _ _ c h)
      ]

  sweep_entry-Grows :
      (rid : String) (found : Option RequestState) (c : C o)
      → IsSound Q c.core
      → Dict.get rid c.ledger ≡ found
      → Grows Q c.core (sweep_entry o rid found c).core
  unfolding sweep_entry
  sweep_entry-Grows rid none c h e = Grows-refl h
  sweep_entry-Grows rid (some entry) c h e =
      elim (Bool-cases (elem entry.lifecycle_state terminal_states)) [
        | inl ended ↦
            rw (ended, core-write_log o (cleanup_record rid entry) c)
              (Grows-step h (cleaned rid entry e ended refl))
        | inr going ↦ rw going (Grows-refl h)
      ]

  sweep-Grows :
      (rids : List String) (c : C o) → IsSound Q c.core → Grows Q c.core (sweep o rids c).core
  unfolding sweep
  sweep-Grows [] c h = Grows-refl h
  sweep-Grows (rid ∷ rids) c h =
      let first = sweep_entry-Grows rid (Dict.get rid c.ledger) c h refl in
      Grows-trans first (sweep-Grows rids _ first.sound)

  pub handle_session-Grows :
      (name : String) (c : C o)
      → IsSound Q c.core
      → elem name session_events ≡ true
      → str_eq name "config.changed" ≡ false
      → Grows Q c.core (handle_session o name c).core
  unfolding handle_session
  handle_session-Grows name c h boundary other =
      let r = boundary_record name c.config.version none in
      let start : Grows Q c.core (write_log o r c).core =
        rw (core-write_log o r c)
          (Grows-step h (session name c.config.version boundary other refl)) in
      elim (Bool-cases (str_eq name "session.sleep")) [
        | inl sleep ↦ rw sleep (Grows-trans start (sweep-Grows _ _ start.sound))
        | inr wake ↦ rw wake start
      ]
