-- ===== src/Communication/Bus/Push.antt =====
-- src/communication/bus.py: `deliver_with`, which pushes the pending messages to a handler.
use absolute_zero.Prelude.{
  ℕ, zero, suc, ◌+◌, inl, inr, String, Option, none, some, List, [], ◌∷◌, ◌++◌, length, ◌==◌,
  if◌then◌else◌,
}
use absolute_zero.Value.{Value, null, int, pos, str, dict, find, value_or_null, obj, decimal}
use Prim.Native.String.{◌++◌ as ◌^◌}
use absolute_zero.Communication.Schema.{Refusal}
use absolute_zero.Communication.Bus.{Port, B, DeadLetter, publish, drain}

abbrev pub letter_of : String → String → Value → String → DeadLetter
letter_of topic subscriber message reason = record {
  topic = topic;
  subscriber = subscriber;
  message = message;
  reason = reason;
}

module _ (p : Port) where
  -- The envelope of `delivery.failed`.
  failure : DeadLetter → ℕ → Value
  failure letter count = dict (
      obj (
        ("event_id", str ("dlq-" ^ decimal count))
        ∷ ("event_name", str "delivery.failed")
        ∷ ("request_id", request_id letter.message)
        ∷ ("timestamp", int (pos 0))
        ∷ (
          "payload",
          dict (
              obj (
                ("topic", str letter.topic)
                ∷ ("subscriber", str letter.subscriber)
                ∷ ("reason", str letter.reason)
                ∷ [])),
        )
        ∷ []))
    where
      request_id : Value → Value
      request_id (dict message) = value_or_null (find "request_id" message)
      request_id v = null

  -- The message is given up: it becomes a dead letter, and that is announced.
  unfoldable pub bury : DeadLetter → B p → Option Refusal × B p
  unfolding failure publish
  bury letter b =
      let letters = b.dead_letters ++ letter ∷ [] in
      publish p "delivery.failed" (failure letter (length letters))
        (record b { dead_letters = letters })

  -- A handler works on a state of its own and on the bus; the text is `repr(exc)` of what it raises.
  abbrev pub Handler : Type 0 → Type 0
  Handler H = Value → H → B p → H × B p × Option String

  module _ {H : Type 0} (handler : Handler H) where
    -- How `deliver_with` stands after some messages.
    pub record Delivery : Type 0 where
      pub delivered : ℕ
      pub dead : ℕ
      pub state : H
      pub bus : B p

    -- The last attempt has failed.
    unfoldable pub give_up : DeadLetter → Delivery → Option Refusal × Delivery
    unfolding bury
    give_up letter d =
        let (refusal, b) = bury letter d.bus in (refusal, record d { dead = d.dead + 1; bus = b })

    -- The attempts from the number `attempt` on, `left` of them.
    unfoldable pub try_from : ℕ → ℕ → String → String → Value → Delivery → Option Refusal × Delivery
    unfolding give_up
    try_from zero attempt topic subscriber message d = (none, d)
    try_from (suc left) attempt topic subscriber message d =
        let (h, b, raised) = handler message d.state d.bus in
        let tried : Delivery = record d { state = h; bus = b } in
        let again = try_from left (attempt + 1) topic subscriber message tried in
        elim raised [
          | none ↦ (none, record tried { delivered = d.delivered + 1 })
          | some reason ↦
              let (refusal, buried) = give_up (letter_of topic subscriber message reason) tried in
              let after = try_from left (attempt + 1) topic subscriber message buried in
              if attempt == b.max_attempts
              then elim refusal [ none ↦ after | some r ↦ (some r, buried) ]
              else again
        ]

    unfoldable pub deliver_one : String → String → Value → Delivery → Option Refusal × Delivery
    unfolding try_from
    deliver_one topic subscriber message d =
        try_from d.bus.max_attempts 1 topic subscriber message d

    -- The drained messages in turn, until a publication raises.
    unfoldable pub deliver_all : String → String → List Value → Delivery → Option Refusal × Delivery
    unfolding deliver_one
    deliver_all topic subscriber [] d = (none, d)
    deliver_all topic subscriber (m ∷ ms) d =
        let (refusal, d') = deliver_one topic subscriber m d in
        let rest = deliver_all topic subscriber ms d' in
        elim refusal [ none ↦ rest | some r ↦ (some r, d') ]

    unfoldable pub deliver_with : String → String → H → B p → Option Refusal × Delivery
    unfolding deliver_all drain
    deliver_with topic subscriber h b =
        let (drained, b') = drain topic subscriber b in
        let start : Delivery = record { delivered = 0; dead = 0; state = h; bus = b' } in
        elim drained [
          | inl refusal ↦ (some refusal, start)
          | inr ms ↦ deliver_all topic subscriber ms start
        ]
