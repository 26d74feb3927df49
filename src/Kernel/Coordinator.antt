-- ===== src/Kernel/Coordinator.antt =====
-- src/kernel/coordinator.py: the event loop, from an envelope to the next state.
pub mod Effects
pub mod Picking
pub mod Logging
pub mod Admission
pub mod Handling
use Prim.Native.String.{slice, len, ◌++◌}
use text.Mathlib.Text.{starts_with}
use absolute_zero.Prelude.{
  String, Bool, true, false, Option, none, some, List, [], ◌∷◌, not, or_else, is_some, elem, ltb,
  str_eq, if◌then◌else◌,
}
use absolute_zero.Prelude.Dict
use absolute_zero.Value.{
  Value, str, Fields, end, find, is_name, is_hashable, str_of, fields_of, value_or_null,
}
use absolute_zero.Kernel.Config
use absolute_zero.Kernel.Config.{ConfigView, Row, Rows, rows, last_row, read}
use absolute_zero.Kernel.Ledger
use absolute_zero.Kernel.Ledger.{RequestState, new_request, terminal_states, active_count, store}
use absolute_zero.Kernel.Envelope
use absolute_zero.Kernel.Envelope.{at}
use absolute_zero.Kernel.Gates.{evaluate, route, Route, target, rejected, decide}
use absolute_zero.Kernel.Record.{
  Info, get_config, install, kept, moved, cleanup_record, boundary_record, noop_record, record_of,
}
use absolute_zero.Kernel.Telemetry.{Outside, Coordinator, fault, write_log, publish_row}

abbrev pub session_events : List String
session_events = "session.wake" ∷ "session.sleep" ∷ []

-- How a call of `handle` ends; the state is what was written up to then.
pub data Outcome : Type 0 where
  done : Outcome
  raised : String → Outcome

-- `value or default` for a text that may be missing.
abbrev pub or_default : Option String → String → String
or_default none d = d
or_default (some s) d = if str_eq s "" then d else s

-- `_guard`: an unknown name never permits.
unfoldable pub guard_holds : String → RequestState → ConfigView → Bool
unfolding evaluate Dict.get
guard_holds name entry cfg =
    if starts_with name "gate:"
    then evaluate entry (or_else (Dict.get (slice name 5 (len name)) cfg.gates) end)
    else if str_eq name "replans_remaining"
    then ltb entry.replan_count cfg.max_replans
    else false

abbrev pub row_applies : Row → RequestState → ConfigView → Bool
row_applies row entry cfg = elim row.when [ none ↦ true | some name ↦ guard_holds name entry cfg ]

-- The rest of `_pick_row` from an index that is not 0.
pick_other : List Row → RequestState → ConfigView → Option (Row × Bool)
pick_other [] entry cfg = none
pick_other (row ∷ more) entry cfg =
    let rest = pick_other more entry cfg in
    if row_applies row entry cfg
    then some (row, str_eq (or_default row.decision "block") "permit")
    else rest

-- `_pick_row`
unfoldable pub pick_row : Rows → RequestState → ConfigView → Option (Row × Bool)
unfolding pick_other
pick_row rs entry cfg =
    if row_applies rs.first entry cfg
    then some (rs.first, str_eq (or_default rs.first.decision "permit") "permit")
    else pick_other rs.others entry cfg

abbrev pub decision_of : Row → Bool → String
decision_of row guard = or_default row.decision (if guard then "permit" else "block")

-- `rows[0] if guard else rows[-1]`
abbrev pub choose : Rows → Bool → Row
choose rs true = rs.first
choose rs false = last_row rs

-- `env["payload"].get("snapshot")`
abbrev pub snapshot_of : Fields → Value
snapshot_of env = value_or_null (find "snapshot" (fields_of (at "payload" env)))

module _ (o : Outside) where
  open o use {World, render}

  abbrev C : Type 0
  C = Coordinator World

  -- `_transition`: the entry and the log change first, then the record and the row are published.
  pub transition : RequestState → String → String → Row → Bool → ConfigView → Info → C → C
  transition entry event event_id row guard cfg info c =
      let entry' = moved entry event (some event_id) row info in
      let c' =
        write_log o (record_of entry event (some event_id) row guard cfg info)
          (record c { core = record c.core { ledger = store entry' c.ledger } }) in
      publish_row o entry' row (decision_of row guard) cfg info c'

  -- The row that `_admit` takes when routing has found a target, or not.
  route_info : Route → Info
  unfolding kept
  route_info (target t) = kept (("routing_target", some t) ∷ ("reason", some "") ∷ [])
  route_info (rejected reason) = kept (("routing_target", none) ∷ ("reason", some reason) ∷ [])

  abbrev is_target : Route → Bool
  is_target (target t) = true
  is_target (rejected reason) = false

  -- The routing step of `_admit`, on the entry that admission has moved.
  chain : RequestState → String → Option String → ConfigView → C → Outcome × C
  chain entry event_id none cfg c = (done, c)
  chain entry event_id (some event) cfg c =
      if str_eq event "" then (done, c) else elim (rows cfg entry.lifecycle_state event) [
        | none ↦ (raised "TypeError", c)
        | some rs ↦
            let r = route entry.declared_type cfg in
            (
              done,
              transition entry event event_id (choose rs (is_target r)) (is_target r) cfg
                  (route_info r) c,
            )
      ]

  admission_info : String → Option String → Info
  unfolding kept
  admission_info declared_type reason =
      kept (("declared_type", some declared_type) ∷ ("reason", some (or_else reason "")) ∷ [])

  -- `str(payload.get("declared_type", ""))`
  declared : Fields → String
  declared payload = elim (find "declared_type" payload) [
    | none ↦ ""
    | some (str s) ↦ s
    | some v ↦ render v
  ]

  -- The rest of `_admit` once the table has been read.
  admit_row : RequestState → String → Bool → Info → Rows → ConfigView → C → Outcome × C
  admit_row entry event_id permitted info rs cfg c =
      let row = choose rs permitted in
      let c' = transition entry "request.received" event_id row permitted cfg info c in
      if permitted
      then chain (moved entry "request.received" (some event_id) row info) event_id row.chain cfg c'
      else (done, c')

  -- The entry is created before the table is read; a refusal is the reason that admission gives.
  admit_entry : RequestState → String → Option String → ConfigView → C → Outcome × C
  admit_entry entry event_id refusal cfg c =
      let c' = record c { core = record c.core { ledger = store entry c.ledger } } in
      elim (rows cfg "created" "request.received") [
        | none ↦ (raised "TypeError", c')
        | some rs ↦
            admit_row entry event_id (not (is_some refusal))
              (admission_info entry.declared_type refusal) rs cfg c'
      ]

  -- `_admit` once the id is known to be a text.
  admit_named : String → Fields → C → Outcome × C
  admit_named rid env c =
      let payload = fields_of (at "payload" env) in
      admit_entry (new_request rid (declared payload) c.config.version) (str_of (at "event_id" env))
        (decide (str_of (at "event_name" env)) payload c.config c.halted (active_count c.ledger))
        c.config c

  pub admit : Fields → C → Outcome × C
  admit env c =
      if is_name (at "request_id" env)
      then admit_named (str_of (at "request_id" env)) env c
      else (done, fault o "request.missing_id" (some env) c)

  abbrev unmatched : String → RequestState → String → String
  unmatched kind entry event =
      "transition." ++ (kind ++ (":" ++ (entry.lifecycle_state ++ ("|" ++ event))))

  apply_under : ConfigView → RequestState → String → Fields → C → C
  apply_under cfg entry event env c = elim (rows cfg entry.lifecycle_state event) [
    | none ↦ fault o (unmatched "unmatched" entry event) (some env) c
    | some rs ↦ elim (pick_row rs entry cfg) [
      | none ↦ fault o (unmatched "no_row" entry event) (some env) c
      | some (row, guard) ↦ transition entry event (str_of (at "event_id" env)) row guard cfg [] c
    ]
  ]

  -- `_apply`, under the snapshot that the request started with.
  pub apply : RequestState → String → Fields → C → C
  apply entry event env c =
      apply_under (or_else (get_config entry.config_version c.configs) c.config) entry event env c

  -- `_handle_config`
  pub handle_config : Fields → C → C
  handle_config env c =
      let snap = snapshot_of env in
      elim (Config.validate snap) [
        | some reason ↦ fault o ("config.invalid:" ++ reason) (some env) c
        | none ↦
            write_log o (boundary_record "config.changed" (read snap).version (some snap))
              (record c { core = install (read snap) c.core })
      ]

  -- The eviction of one request at the session boundary.
  sweep_entry : String → Option RequestState → C → C
  sweep_entry rid none c = c
  sweep_entry rid (some entry) c =
      if elem entry.lifecycle_state terminal_states
      then (let c' = write_log o (cleanup_record rid entry) c in
          record c' { core = record c'.core { ledger = Ledger.evict rid c'.ledger } })
      else c

  sweep : List String → C → C
  sweep [] c = c
  sweep (rid ∷ rids) c = sweep rids (sweep_entry rid (Dict.get rid c.ledger) c)

  -- `_handle_session`
  pub handle_session : String → C → C
  handle_session name c =
      let c' = write_log o (boundary_record name c.config.version none) c in
      if str_eq name "session.sleep" then sweep (Dict.keys c'.ledger) c' else c'

  abbrev is_duplicate : Fields → RequestState → Bool
  is_duplicate env entry = elim entry.last_applied_event_id [
    | none ↦ false
    | some id ↦ str_eq id (str_of (at "event_id" env))
  ]

  -- `handle`, once the ledger has been asked for the request.
  handle_request : Option RequestState → String → Fields → C → Outcome × C
  handle_request none name env c =
      if str_eq name "request.received"
      then admit env c
      else (done, fault o ("request.unknown:" ++ name) (some env) c)
  handle_request (some entry) name env c =
      if is_duplicate env entry
      then (done, write_log o (noop_record entry (str_of (at "event_id" env)) name "duplicate") c)
      else if str_eq name "request.received"
      then (done, fault o (unmatched "unmatched" entry name) (some env) c)
      else (done, apply entry name env c)

  -- `handle`, on an envelope that `validate` accepts.
  dispatch : String → Fields → C → Outcome × C
  dispatch name env c =
      if str_eq name "config.changed"
      then (done, handle_config env c)
      else if elem name session_events
      then (done, handle_session name c)
      else if is_hashable (at "request_id" env)
      then handle_request (Ledger.get (at "request_id" env) c.ledger) name env c
      else (raised "TypeError", c)

  -- `handle(env)`
  unfoldable pub handle : Value → C → Outcome × C
  unfolding dispatch handle_config handle_session handle_request admit admit_named admit_entry
      admit_row chain route_info admission_info declared sweep sweep_entry apply apply_under
      transition pick_row pick_other
  handle env c = elim (Envelope.validate c.config.inbound_events env) [
    | some reason ↦ (done, fault o reason (Envelope.mapping env) c)
    | none ↦ dispatch (str_of (at "event_name" (fields_of env))) (fields_of env) c
  ]

  -- The envelopes in turn, until one raises.
  unfoldable pub run : List Value → C → Outcome × C
  run [] c = (done, c)
  run (env ∷ envs) c =
      let (r, c') = handle env c in
      let rest = run envs c' in elim r [ done ↦ rest | raised e ↦ (raised e, c') ]
