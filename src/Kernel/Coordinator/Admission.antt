-- ===== src/Kernel/Coordinator/Admission.antt =====
-- src/kernel/coordinator.py: the steps that `_admit` takes.
use absolute_zero.Prelude.{
  String, ◌≡◌, ◌∙◌, ap, refl, inl, inr, Bool, true, false, Option, none, some, or_else, not,
  is_some, arith, str_eq, eq_iff, Bool-cases, Option-cases,
}
use absolute_zero.Prelude.Dict
use absolute_zero.Value.{Value, Fields, str, is_name}
use absolute_zero.Kernel.Config.{ConfigView, Rows, rows, last_row}
use absolute_zero.Kernel.Ledger
use absolute_zero.Kernel.Ledger.{RequestState, new_request, store}
use absolute_zero.Kernel.Envelope.{at}
use absolute_zero.Kernel.Gates.{route}
use absolute_zero.Kernel.Record.{Info, Core, get_config, kept, moved, advance}
use absolute_zero.Kernel.Telemetry.{Outside}
use absolute_zero.Kernel.Coordinator.{
  Outcome, done, C, choose, transition, chain, admit_entry, admit_row, admit_named, admit,
  admission_info, route_info, is_target,
}
use absolute_zero.Kernel.Coordinator.Effects.{core-transition}
use absolute_zero.Kernel.Coordinator.Logging.{
  Grows, Grows-refl, Grows-trans, Grows-step, fault-Grows,
}
use absolute_zero.Kernel.Steps.{birth, chained}
use absolute_zero.Kernel.Steps.Sound.{IsSound, get-store_moved}

declared-admission_info :
    (o : Outside) (d : String) (reason : Option String)
    → or_else (Dict.get "declared_type" (admission_info o d reason)) "" ≡ d
unfolding admission_info kept Dict.get
declared-admission_info o d reason = ground (arith, eq_iff d "", eq_iff (or_else reason "") "")

-- A call that returns has worked by steps.
abbrev pub Ends : (Q : ConfigView → Type 0) (o : Outside) → Core → Outcome × C o → Type 0
Ends Q o s r = r.0 ≡ done → Grows Q s r.1.core

module _ {Q : ConfigView → Type 0} (o : Outside) where
  chain-Ends :
      (entry : RequestState) (event_id : String) (from : Rows) (permitted : Bool) (cfg : ConfigView)
      (c : C o)
      → IsSound Q c.core
      → get_config cfg.version c.configs ≡ some cfg
      → rows cfg "created" "request.received" ≡ some from
      → Dict.get entry.request_id c.ledger ≡ some entry
      → (next : Option String) → (choose from permitted).chain ≡ next
      → Ends Q o c.core (chain o entry event_id next cfg c)
  unfolding chain
  chain-Ends entry event_id from permitted cfg c h at_version birth_rows known none e =
      λ _. Grows-refl h
  chain-Ends entry event_id from permitted cfg c h at_version birth_rows known (some event) e =
      elim (Bool-cases (str_eq event "")) [
        | inl empty ↦ rw (empty, chain) (λ _. Grows-refl h)
        | inr named ↦ elim (Option-cases (rows cfg entry.lifecycle_state event)) [
          | inl missing ↦ rw (named, missing, chain) (λ raised. cc)
          | inr (rs, tabled) ↦
              let r = route entry.declared_type cfg in
              let guard = is_target o r in
              rw (named, tabled, chain)
                (rw
                  (core-transition o entry event event_id (choose rs guard) guard cfg
                    (route_info o r) c)
                  (λ _. Grows-step h (
                    chained entry event event_id (route_info o r) from rs permitted guard cfg known
                      at_version birth_rows e named tabled refl)))
        ]
      ]

  admit_row-Ends :
      (s : Core) (entry : RequestState) (event_id : String) (permitted : Bool) (info : Info)
      (rs : Rows) (cfg : ConfigView) (c : C o)
      → Grows Q s (
          advance entry "request.received" event_id (choose rs permitted) permitted cfg info c.core)
      → get_config cfg.version c.configs ≡ some cfg
      → rows cfg "created" "request.received" ≡ some rs
      → Ends Q o s (admit_row o entry event_id permitted info rs cfg c)
  unfolding admit_row
  admit_row-Ends s entry event_id false info rs cfg c first at_version birth_rows = λ _.
      rw (core-transition o entry "request.received" event_id (last_row rs) false cfg info c) first
  admit_row-Ends s entry event_id true info rs cfg c first at_version birth_rows =
      let same_core =
        core-transition o entry "request.received" event_id rs.first true cfg info c in
      let c' = transition o entry "request.received" event_id rs.first true cfg info c in
      let first' : Grows Q s c'.core = rw same_core first in
      let entry' = moved entry "request.received" (some event_id) rs.first info in
      λ ended. Grows-trans first' (
        chain-Ends entry' event_id rs true cfg c' first'.sound
          (ap (λ (t : Core). get_config cfg.version t.configs) same_core ∙ at_version) birth_rows
          (ap (λ (t : Core). Dict.get entry'.request_id t.ledger) same_core
            ∙ get-store_moved entry "request.received" event_id rs.first true cfg info c.core)
          rs.first.chain refl ended)

  admit_entry-Ends :
      (rid d event_id : String) (refusal : Option String) (cfg : ConfigView) (c : C o)
      → IsSound Q c.core
      → get_config cfg.version c.configs ≡ some cfg
      → Dict.get rid c.ledger ≡ none
      → Ends Q o c.core (admit_entry o (new_request rid d cfg.version) event_id refusal cfg c)
  unfolding admit_entry
  admit_entry-Ends rid d event_id refusal cfg c h at_version fresh =
      elim (Option-cases (rows cfg "created" "request.received")) [
        | inl missing ↦ rw (missing, admit_entry) (λ raised. cc)
        | inr (rs, tabled) ↦
            let permitted = not (is_some refusal) in
            let entry = new_request rid d cfg.version in
            let info = admission_info o d refusal in
            rw (tabled, admit_entry)
              (admit_row-Ends c.core entry event_id permitted info rs cfg
                (record c { core = record c.core { ledger = store entry c.ledger } })
                (Grows-step h (
                  birth rid d event_id info rs permitted cfg (declared-admission_info o d refusal)
                    fresh at_version tabled refl))
                at_version tabled)
      ]

  -- Admission takes the birth step of the request, and its routing.
  pub admit-Ends :
      (env : Fields) (c : C o)
      → IsSound Q c.core
      → Ledger.get (at "request_id" env) c.ledger ≡ none
      → Ends Q o c.core (admit o env c)
  unfolding admit admit_named Ledger.get
  admit-Ends env c h fresh = admit_id (at "request_id" env) refl fresh
    where
      admit_id :
          (rid : Value)
          → at "request_id" env ≡ rid
          → Ledger.get rid c.ledger ≡ none
          → Ends Q o c.core (admit o env c)
      admit_id (str rid) e f = elim (Bool-cases (is_name (str rid))) [
        | inl named ↦ rw (e, named) (admit_entry-Ends rid _ _ _ c.config c h h.current f)
        | inr empty ↦ rw (e, empty) (λ _. fault-Grows o "request.missing_id" (some env) c h)
      ]
      admit_id _ e f = rw e (λ _. fault-Grows o "request.missing_id" (some env) c h)
