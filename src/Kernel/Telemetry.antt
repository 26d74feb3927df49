-- ===== src/Kernel/Telemetry.antt =====
-- src/kernel/coordinator.py: what the coordinator publishes. The bus, the clock and the rendering
-- of a value by `str` are parameters; a publish that raises is one that answers `false`.
pub mod Silent
use Prim.Native.String.{◌++◌}
use absolute_zero.Prelude.{
  ℕ, ◌+◌, String, Bool, true, Option, none, some, List, [], ◌∷◌, or_else, elem, str_eq,
  if◌then◌else◌,
}
use absolute_zero.Prelude.Dict
use absolute_zero.Value.{
  Value, null, bool, int, str, Fields, end, field, find, str_or_null, value_or_null, decimal,
}
use absolute_zero.Kernel.Config.{ConfigView, Row}
use absolute_zero.Kernel.Ledger.{RequestState}
use absolute_zero.Kernel.Envelope.{Envelope}
use absolute_zero.Kernel.Record.{Info, LogRecord, Core, append_log}

pub data Message : Type 0 where
  event : Envelope → Message
  log_line : LogRecord → Message

pub record Outside : Type 1 where
  pub World : Type 0
  pub publish : String → Message → World → World × Bool
  pub now : World → ℕ
  pub render : Value → String

pub record Coordinator (W : Type 0) : Type 0 where
  pub core : Core
  pub open core use *
  pub halted : Bool
  pub out_seq : ℕ
  pub world : W

module _ (o : Outside) where
  open o use {World, publish, now}

  abbrev C : Type 0
  C = Coordinator World

  -- `_emit` over a given `_safe_publish`: an id from the counter if none is given.
  emit_by :
      (String → Message → C → C) → String → Value → Fields → ConfigView → Option String → C → C
  emit_by send name rid payload cfg none c =
      send name
        (event (record {
          event_id = "out-" ++ decimal (c.out_seq + 1);
          event_name = name;
          request_id = rid;
          timestamp = now c.world;
          config_version = cfg.version;
          payload = payload;
        }))
        (record c { out_seq = c.out_seq + 1 })
  emit_by send name rid payload cfg (some id) c =
      send name
        (event (record {
          event_id = id;
          event_name = name;
          request_id = rid;
          timestamp = now c.world;
          config_version = cfg.version;
          payload = payload;
        }))
        c

  -- `_fault` over a given `_safe_publish`.
  fault_by : (String → Message → C → C) → String → Option Fields → C → C
  unfolding emit_by find
  fault_by send reason none c =
      emit_by send "fault.recorded" null (field "reason" (str reason) end) c.config none c
  fault_by send reason (some env) c =
      emit_by send "fault.recorded" (value_or_null (find "request_id" env))
        (field "reason" (str reason) (
          field "event_id" (value_or_null (find "event_id" env))
            (field "request_id" (value_or_null (find "request_id" env)) end)))
        c.config none c

  -- `_safe_publish` once `halted` is set: a failure is swallowed.
  publish_halted : String → Message → C → C
  publish_halted topic message c = record c { world = (publish topic message c.world).0 }

  -- `_safe_publish`: the first failure halts admission and is announced.
  safe_publish : String → Message → C → C
  unfolding publish_halted fault_by
  safe_publish topic message c =
      let (w, sent) = publish topic message c.world in
      if sent
      then record c { world = w }
      else if c.halted
      then record c { world = w }
      else fault_by publish_halted "communication.unavailable" none
          (record c { world = w; halted = true })

  unfoldable pub emit : String → Value → Fields → ConfigView → Option String → C → C
  unfolding safe_publish publish_halted fault_by emit_by
  emit = emit_by safe_publish

  -- `_fault`
  unfoldable pub fault : String → Option Fields → C → C
  unfolding safe_publish publish_halted fault_by emit_by
  fault = fault_by safe_publish

  -- `_log`: the record is in the log before anything is published.
  unfoldable pub write_log : LogRecord → C → C
  unfolding safe_publish publish_halted fault_by emit_by
  write_log r c =
      safe_publish "transition.log" (log_line r) (record c { core = append_log r c.core })

  payload_for : String → RequestState → String → Row → ConfigView → Info → Fields
  unfolding Dict.get
  payload_for name entry decision row cfg info =
      let rid = str entry.request_id in
      if str_eq name "gate.enforced"
      then field "request_id" rid
          (field "gate" (str (or_else row.gate "")) (field "decision" (str decision) end))
      else if str_eq name "routing.directive"
      then field "request_id" rid (
          field "declared_type" (str entry.declared_type) (
            field "target" (str_or_null entry.routing_target)
              (field "config_version" (int cfg.version) end)))
      else if elem name ("request.rejected" ∷ "request.failed" ∷ [])
      then field "request_id" rid (
          field "state" (str entry.lifecycle_state)
            (field "reason" (str (or_else (Dict.get "reason" info) "")) end))
      else if str_eq name "request.cancelled"
      then field "request_id" rid (field "state" (str "cancelled") (field "ack" (bool true) end))
      else field "request_id" rid (field "state" (str entry.lifecycle_state) end)

  -- The id of an emission is the same whenever the transition is published again.
  outbound_id : RequestState → ℕ → String
  outbound_id entry index =
      entry.request_id ++ (":" ++ (decimal entry.transition_sequence ++ (":" ++ decimal index)))

  publish_from : ℕ → List String → RequestState → Row → String → ConfigView → Info → C → C
  unfolding payload_for outbound_id
  publish_from index [] entry row decision cfg info c = c
  publish_from index (name ∷ names) entry row decision cfg info c =
      publish_from (index + 1) names entry row decision cfg info (
        emit name (str entry.request_id) (payload_for name entry decision row cfg info) cfg
          (some (outbound_id entry index)) c)

  -- `_publish_row`
  unfoldable pub publish_row : RequestState → Row → String → ConfigView → Info → C → C
  unfolding publish_from payload_for outbound_id emit
  publish_row entry row = publish_from 0 row.emit entry row
