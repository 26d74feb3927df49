-- ===== src/Kernel/Safety/Gated.antt =====
-- src/kernel/coordinator.py: what a row of a checked table does to a request.
use absolute_zero.Prelude.{
  String, ◌≡◌, ◌∙◌, ap, sym, inl, inr, Bool, true, false, ◌&&◌, Option, none, some, elem, all_of,
  all_of-elem, arith, str_eq, eq_iff, Bool-cases,
}
use absolute_zero.Prelude.Dict
use absolute_zero.Prelude.Dict.{get-put, get-remove}
use absolute_zero.Kernel.Config.{ConfigView, Row, rows}
use absolute_zero.Kernel.Ledger.{RequestState}
use absolute_zero.Kernel.Record.{Info, moved}
use absolute_zero.Kernel.Coordinator.{guard_holds, row_applies}
use absolute_zero.Kernel.Safety.{
  lifecycle_states, work_events, kernel_events, is_guarded, records_pass, row_is_gated,
  row_is_birth, rows_pass, completion_gate, events_are_known, work_is_gated, birth_is_gated,
  routing_is_gated, completion_is_gated, is_gated,
}
use absolute_zero.Kernel.Safety.Verdicts.{
  IsVerified, verdicts-do_actions, do_actions-records, gate-IsVerified,
}

-- A known state, and a verdict if the request is completed.
pub record IsGood (entry : RequestState) : Type 0 where
  pub known : elem entry.lifecycle_state lifecycle_states ≡ true
  pub verified : str_eq entry.lifecycle_state "completed" ≡ true → IsVerified entry

all_five :
    (a b c d e : Bool)
    → (a && b && c && d && e) ≡ true
    → (a ≡ true) × (b ≡ true) × (c ≡ true) × (d ≡ true) × (e ≡ true)
all_five a b c d e h = ground arith

module _ (cfg : ConfigView) (fit : is_gated cfg ≡ true) where
  gated-parts :
      (events_are_known cfg ≡ true)
      × (work_is_gated cfg ≡ true)
      × (birth_is_gated cfg ≡ true)
      × (routing_is_gated cfg ≡ true)
      × (completion_is_gated cfg ≡ true)
  unfolding is_gated
  gated-parts = all_five (events_are_known cfg) _ _ _ _ fit

  pub gated-events :
      (event : String) → elem event cfg.inbound_events ≡ true → elem event kernel_events ≡ true
  unfolding events_are_known
  gated-events event inbound =
      all_of-elem (λ e. elem e kernel_events) cfg.inbound_events event gated-parts.0 inbound

  pub gated-rows :
      (state event : String)
      → elem state lifecycle_states ≡ true
      → elem event work_events ≡ true
      → rows_pass (row_is_gated state event) (rows cfg state event) ≡ true
  unfolding work_is_gated
  gated-rows state event hs he =
      all_of-elem (λ e. rows_pass (row_is_gated state e) (rows cfg state e)) work_events event
        (all_of-elem (λ s. all_of (λ e. rows_pass (row_is_gated s e) (rows cfg s e)) work_events)
          lifecycle_states state gated-parts.1 hs)
        he

  pub gated-birth : rows_pass row_is_birth (rows cfg "created" "request.received") ≡ true
  unfolding birth_is_gated
  gated-birth = gated-parts.2

  pub gated-routing :
      (state : String)
      → elem state lifecycle_states ≡ true
      → rows_pass row_is_birth (rows cfg state "__routing__") ≡ true
  unfolding routing_is_gated
  gated-routing state hs =
      all_of-elem (λ s. rows_pass row_is_birth (rows cfg s "__routing__")) lifecycle_states state
        gated-parts.3 hs

  pub gated-completion : completion_gate (Dict.get "completion" cfg.gates) ≡ true
  unfolding completion_is_gated
  gated-completion = gated-parts.4

module _ (entry : RequestState) (event event_id : String) (row : Row) (info : Info) where
  guard-applies :
      (cfg : ConfigView)
      → is_guarded "gate:completion" row ≡ true
      → row_applies row entry cfg ≡ true
      → guard_holds "gate:completion" entry cfg ≡ true
  guard-applies cfg g applies = of_when row.when g applies
    where
      of_when :
          (w : Option String)
          → elim w [ none ↦ false | some name ↦ str_eq name "gate:completion" ] ≡ true
          → elim w [ none ↦ true | some name ↦ guard_holds name entry cfg ] ≡ true
          → guard_holds "gate:completion" entry cfg ≡ true
      of_when none g h = absurd (cc g)
      of_when (some name) g h =
          let same : name ≡ "gate:completion" = ground (arith, eq_iff name "gate:completion") in
          ap (λ (n : String). guard_holds n entry cfg) (sym same) ∙ h

  -- A row of the table keeps a request good.
  pub moved-IsGood :
      (cfg : ConfigView)
      → completion_gate (Dict.get "completion" cfg.gates) ≡ true
      → row_applies row entry cfg ≡ true
      → row_is_gated entry.lifecycle_state event row ≡ true
      → IsGood entry
      → IsGood (moved entry event (some event_id) row info)
  unfolding row_is_gated
  moved-IsGood cfg gate applies fit h = record {
    known = ground arith;
    verified = λ completed. elim (Bool-cases (records_pass event row.actions)) [
      | inl pass ↦ do_actions-records event info row.actions entry (ground arith) (ground arith)
      | inr kept ↦
          let before : IsVerified entry = elim (Bool-cases (is_guarded "gate:completion" row)) [
            | inl guarded ↦ gate-IsVerified entry cfg gate (guard-applies cfg guarded applies)
            | inr open' ↦ h.verified (ground arith)
          ] in
          ap (Dict.get "verification")
            (verdicts-do_actions event info row.actions entry (ground arith))
          ∙ before
    ];
  }

  -- A row of admission or routing never completes.
  pub born-IsGood : row_is_birth row ≡ true → IsGood (moved entry event (some event_id) row info)
  unfolding row_is_birth
  born-IsGood fit = record { known = ground arith; verified = λ completed. ground arith }
