-- ===== src/Communication/Schema.antt =====
-- src/communication/schema.py: the topics, their kinds, and the check of a message.
use absolute_zero.Prelude.{
  String, Bool, false, Option, none, some, List, [], ◌∷◌, foldl, not, str_eq, is_some,
  if◌then◌else◌,
}
use absolute_zero.Prelude.Dict
use absolute_zero.Prelude.Dict.{Dict}
use absolute_zero.Value.{Value, str, dict, Fields, find, value_or_null, is_dict, is_name}

pub data Kind : Type 0 where
  envelope : Kind
  opaque_record : Kind

-- The exceptions of the bus, by the text that they carry.
pub data Refusal : Type 0 where
  unknown_topic : String → Refusal
  message_not_mapping : String → Refusal
  missing_field : String → String → Refusal
  event_name_topic_mismatch : Value → String → Refusal
  bad_event_id : String → Refusal
  bad_payload : String → Refusal
  topic_already_registered : String → Refusal
  no_storage_for_durable : String → Refusal
  duplicate_subscription : String → String → Refusal
  backpressure : String → String → Refusal
  unknown_subscription : String → String → Refusal
  no_storage_to_replay : String → Refusal
  storage_raised : Refusal

abbrev pub envelope_fields : List String
envelope_fields = "event_id" ∷ "event_name" ∷ "request_id" ∷ "timestamp" ∷ "payload" ∷ []

abbrev pub matrix_topics : List String
matrix_topics =
    "request.received" ∷ "request.admitted" ∷ "request.rejected" ∷ "request.completed"
    ∷ "request.failed" ∷ "request.cancelled" ∷ "intent.classified" ∷ "plan.created"
    ∷ "plan.validated" ∷ "plan.rejected" ∷ "plan.revised" ∷ "task.scheduled" ∷ "task.started"
    ∷ "task.preempted" ∷ "task.completed" ∷ "task.failed" ∷ "workflow.created" ∷ "context.assembled"
    ∷ "context.overflow" ∷ "context.invalidated" ∷ "exec.started" ∷ "exec.completed"
    ∷ "exec.timeout" ∷ "exec.failed" ∷ "verify.requested" ∷ "verify.passed" ∷ "verify.failed"
    ∷ "repo.indexed" ∷ "index.stale" ∷ "index.updated" ∷ "repo.onboarded" ∷ "repo.offboarded"
    ∷ "plugin.discovered" ∷ "plugin.registered" ∷ "plugin.loaded" ∷ "plugin.unloaded"
    ∷ "plugin.health.changed" ∷ "plugin.lifecycle.changed" ∷ "reliability.updated"
    ∷ "lesson.recorded" ∷ "prior.updated" ∷ "fault.recorded" ∷ "storage.committed"
    ∷ "storage.rejected" ∷ "telemetry.emitted" ∷ "cost.recorded" ∷ "budget.exceeded"
    ∷ "trace.opened" ∷ "trace.closed" ∷ "alert.raised" ∷ "session.wake" ∷ "session.sleep"
    ∷ "state.updated" ∷ "state.evicted" ∷ "reasoning.decided" ∷ "reasoning.invoked"
    ∷ "reasoning.completed" ∷ "reasoning.failed" ∷ "gate.enforced" ∷ "routing.directive"
    ∷ "config.changed" ∷ "delivery.failed" ∷ []

abbrev pub record_topics : List String
record_topics =
    "transition.log" ∷ "policy.authored" ∷ "policy.deprecated" ∷ "policy.compiled"
    ∷ "policy.rejected" ∷ "policy.activated" ∷ "policy.decided" ∷ "policy.illposed"
    ∷ "grant.recorded" ∷ "grant.revoked" ∷ []

put_all : Kind → List String → Dict Kind → Dict Kind
put_all kind names d = foldl (λ r name. Dict.put name kind r) d names

-- `default_registry()`
unfoldable pub default_registry : Dict Kind
unfolding put_all Dict.put
default_registry = put_all opaque_record record_topics (put_all envelope matrix_topics [])

-- The first field that the envelope lacks.
missing : String → List String → Fields → Option Refusal
missing topic [] message = none
missing topic (f ∷ fields) message =
    let rest = missing topic fields message in
    if is_some (find f message) then rest else some (missing_field topic f)

is_topic : String → Value → Bool
is_topic topic (str s) = str_eq s topic
is_topic topic v = false

check_envelope : String → Fields → Option Refusal
check_envelope topic message = elim (missing topic envelope_fields message) [
  | some refusal ↦ some refusal
  | none ↦
      if not (is_topic topic (value_or_null (find "event_name" message)))
      then some (event_name_topic_mismatch (value_or_null (find "event_name" message)) topic)
      else if not (is_name (value_or_null (find "event_id" message)))
      then some (bad_event_id topic)
      else if not (is_dict (value_or_null (find "payload" message)))
      then some (bad_payload topic)
      else none
]

check_kind : Kind → String → Value → Option Refusal
check_kind envelope topic (dict message) = check_envelope topic message
check_kind opaque_record topic (dict message) = none
check_kind kind topic message = some (message_not_mapping topic)

-- `validate(topic, message, registry)`: `none` passes.
unfoldable pub validate : String → Value → Dict Kind → Option Refusal
unfolding check_kind check_envelope missing is_topic Dict.get find
validate topic message registry = elim (Dict.get topic registry) [
  | none ↦ some (unknown_topic topic)
  | some kind ↦ check_kind kind topic message
]
