-- ===== src/Kernel/Coordinator/Handling.antt =====
-- src/kernel/coordinator.py: the steps that `handle` and a run of it take.
use absolute_zero.Prelude.{
  String, ◌≡◌, ◌∙◌, ap, refl, inl, inr, true, Option, none, some, List, [], ◌∷◌, elem, All, arith,
  str_eq, Bool-cases, Option-cases,
}
use absolute_zero.Prelude.Dict
use absolute_zero.Value.{Value, Fields, dict, str, str_of, fields_of, is_hashable}
use absolute_zero.Kernel.Config
use absolute_zero.Kernel.Config.{ConfigView, read}
use absolute_zero.Kernel.Ledger
use absolute_zero.Kernel.Ledger.{RequestState}
use absolute_zero.Kernel.Envelope
use absolute_zero.Kernel.Envelope.{at}
use absolute_zero.Kernel.Telemetry.{Outside}
use absolute_zero.Kernel.Record.{Core}
use absolute_zero.Kernel.Coordinator.{
  Outcome, done, raised, C, is_duplicate, snapshot_of, session_events, handle_request, dispatch,
  handle, run,
}
use absolute_zero.Kernel.Coordinator.Logging.{
  Grows-refl, Grows-trans, fault-Grows, apply-Grows, noop-Grows, handle_config-Grows,
  handle_session-Grows,
}
use absolute_zero.Kernel.Coordinator.Admission.{Ends, admit-Ends}
use absolute_zero.Kernel.Steps.{IsRequestEvent}
use absolute_zero.Kernel.Steps.Sound.{IsSound}

-- The snapshot that the envelope installs, if it does install one, has the property.
abbrev pub Installs : (ConfigView → Type 0) → Value → Type 0
Installs Q env =
    str_eq (str_of (at "event_name" (fields_of env))) "config.changed" ≡ true
    → Config.validate (snapshot_of (fields_of env)) ≡ none
    → Q (read (snapshot_of (fields_of env)))

allowed-of_valid :
    (allowed : List String) (env : Value)
    → Envelope.validate allowed env ≡ none
    → elem (str_of (at "event_name" (fields_of env))) allowed ≡ true
unfolding Envelope.validate
allowed-of_valid allowed (dict env) h = ground arith
allowed-of_valid allowed _ h = ground arith

module _ {Q : ConfigView → Type 0} (o : Outside) where
  -- An entry that the ledger finds stands under its own id.
  get-entry :
      (rid : Value) (entry : RequestState) (c : C o)
      → IsSound Q c.core
      → Ledger.get rid c.ledger ≡ some entry
      → Dict.get entry.request_id c.ledger ≡ some entry
  unfolding Ledger.get
  get-entry (str rid) entry c h e =
      ap (λ (id : String). Dict.get id c.ledger) (h.keyed rid entry e) ∙ e
  get-entry _ entry c h e = cc

  request-Ends :
      (found : Option RequestState) (name : String) (env : Fields) (c : C o)
      → IsSound Q c.core
      → IsRequestEvent c.core name
      → Ledger.get (at "request_id" env) c.ledger ≡ found
      → Ends Q o c.core (handle_request o found name env c)
  unfolding handle_request
  request-Ends none name env c h asked e = elim (Bool-cases (str_eq name "request.received")) [
    | inl birth ↦ rw (birth, handle_request) (admit-Ends o env c h e)
    | inr other ↦ rw (other, handle_request) (λ _. fault-Grows o _ _ c h)
  ]
  request-Ends (some entry) name env c h asked e = elim (Bool-cases (is_duplicate o env entry)) [
    | inl old ↦ rw (old, handle_request) (λ _. noop-Grows o entry _ name c h asked)
    | inr new ↦ elim (Bool-cases (str_eq name "request.received")) [
      | inl birth ↦ rw (new, birth, handle_request) (λ _. fault-Grows o _ _ c h)
      | inr other ↦
          rw (new, other, handle_request)
            (λ _.
              apply-Grows o entry name env c h asked other
                (get-entry (at "request_id" env) entry c h e))
    ]
  ]

  dispatch-Ends :
      (name : String) (env : Fields) (c : C o)
      → IsSound Q c.core
      → elem name c.config.inbound_events ≡ true
      → (str_eq name "config.changed" ≡ true
          → Config.validate (snapshot_of env) ≡ none
          → Q (read (snapshot_of env)))
      → Ends Q o c.core (dispatch o name env c)
  unfolding dispatch
  dispatch-Ends name env c h inbound fit = elim (Bool-cases (str_eq name "config.changed")) [
    | inl config ↦ rw (config, dispatch) (λ _. handle_config-Grows o env c h (fit config))
    | inr other ↦ elim (Bool-cases (elem name session_events)) [
      | inl boundary ↦
          rw (other, boundary, dispatch) (λ _. handle_session-Grows o name c h boundary other)
      | inr asked ↦ elim (Bool-cases (is_hashable (at "request_id" env))) [
        | inl keyed ↦
            rw (other, asked, keyed, dispatch)
              (request-Ends (Ledger.get (at "request_id" env) c.ledger) name env c h
                (record { inbound = inbound; no_config = other; no_session = asked }) refl)
        | inr unhashable ↦ rw (other, asked, unhashable, dispatch) (λ raised. cc)
      ]
    ]
  ]

  -- One call of `handle`.
  pub handle-Ends :
      (env : Value) (c : C o) → IsSound Q c.core → Installs Q env → Ends Q o c.core (handle o env c)
  unfolding handle
  handle-Ends env c h fit = elim (Option-cases (Envelope.validate c.config.inbound_events env)) [
    | inl valid ↦
        rw (valid, handle)
          (dispatch-Ends (str_of (at "event_name" (fields_of env))) (fields_of env) c h
            (allowed-of_valid c.config.inbound_events env valid) fit)
    | inr (reason, bad) ↦ rw (bad, handle) (λ _. fault-Grows o reason (Envelope.mapping env) c h)
  ]

  after-Ends :
      (envs : List Value) (s : Core) (r : Outcome × C o)
      → ((c : C o) → IsSound Q c.core → Ends Q o c.core (run o envs c))
      → Ends Q o s r
      → Ends Q o s (elim r.0 [ done ↦ run o envs r.1 | raised e ↦ (raised e, r.1) ])
  after-Ends envs s (done, c) rest first =
      let grown = first refl in λ e. Grows-trans grown (rest c grown.sound e)
  after-Ends envs s (raised x, c) rest first = λ e. cc

  -- A whole run.
  pub run-Ends :
      (envs : List Value) (c : C o)
      → IsSound Q c.core
      → All (Installs Q) envs
      → Ends Q o c.core (run o envs c)
  unfolding run
  run-Ends [] c h fits = λ _. Grows-refl h
  run-Ends (env ∷ envs) c h fits =
      after-Ends envs c.core (handle o env c) (λ d k. run-Ends envs d k fits.1)
        (handle-Ends env c h fits.0)
