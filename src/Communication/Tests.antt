-- ===== src/Communication/Tests.antt =====
-- Calls of the bus on concrete messages, and the theorems at concrete inputs.
use absolute_zero.Prelude.{
  ℕ, suc, ◌+◌, String, ◌≡◌, ◌≢◌, refl, ◌⊎◌, inl, inr, false, Option, none, some, List, [], ◌∷◌,
  length, arith, str_eq, eq_iff, ◌==◌, ◌&&◌, if◌then◌else◌,
}
use absolute_zero.Prelude.Dict
use absolute_zero.Value.{Value, int, pos, str, dict, obj, find, decimal}
use absolute_zero.Value.{fields_of}
use absolute_zero.Value.Sorted.{sort_keys, is_distinct, sorted_value}
use absolute_zero.Communication.Schema
use absolute_zero.Communication.Schema.{default_registry, Refusal}
use absolute_zero.Communication.Bus.{
  Port, B, new_bus, queue_of, change, enqueue, add_subscription, subscribe, publish, persist,
  seq_floor, probe, read_log, load, replay, drain, pending, first_full,
}
use absolute_zero.Communication.Bus.Push.{
  Handler, deliver_with, deliver_all, deliver_one, try_from, give_up, bury,
}
use absolute_zero.Communication.Bus.Wiring.{Call, subscribed, published, perform, expected}
use absolute_zero.Communication.Bus.Fifo.{perform_all, history, pending-history, calls-IsWired}
use absolute_zero.Communication.Bus.Durable.{IsPort, replay-publish}
use absolute_zero.Communication.Bus.Poison.{Minds, publish-letters, deliver_with-accounts}
use absolute_zero.Communication.Bus.Poison.Spared.{Spares, deliver_with-empties}

abbrev Entries : Type 0
Entries = List (String × ℕ × Value)

abbrev lookup : String → ℕ → Entries → Option Value
lookup t n [] = none
lookup t n ((u, m, v) ∷ es) = if str_eq u t && m == n then some v else lookup t n es

-- A store in memory.
abbrev memory : Port
memory = record {
  Store = Entries;
  Bytes = Value;
  write = λ t n v es. some ((t, n, v) ∷ es);
  read = lookup;
  beyond = λ t es. length es;
  dumps = sort_keys;
  loads = some;
}

lookup-own :
    (t : String) (n : ℕ) (v : Value) (es fs : Entries)
    → some ((t, n, v) ∷ es) ≡ some fs
    → lookup t n fs ≡ some v
lookup-own t n v es fs e = ground (arith, eq_iff t t)

lookup-other :
    (t u : String) (n m : ℕ) (v : Value) (es fs : Entries)
    → some ((t, n, v) ∷ es) ≡ some fs
    → (t ≢ u) ⊎ (n ≢ m)
    → lookup u m fs ≡ lookup u m es
lookup-other t u n m v es fs e (inl other) = ground (arith, eq_iff t u)
lookup-other t u n m v es fs e (inr other) = ground (arith, eq_iff t u)

memory-IsPort : IsPort memory
memory-IsPort = record { read_own = lookup-own; read_other = lookup-other; round = λ v ok. refl }

abbrev event : String → String → Value
event id name = dict (
    obj (
      ("event_id", str id)
      ∷ ("event_name", str name)
      ∷ ("request_id", str "r1")
      ∷ ("timestamp", int (pos 0))
      ∷ ("payload", dict (obj []))
      ∷ []))

abbrev empty : B memory
empty = new_bus (some []) 2 2

abbrev first : B memory
first = (publish memory "verify.passed" (event "e1" "verify.passed") empty).1

abbrev second : Value
second = event "e2" "verify.passed"

replay-publish_example :
    ((replay memory "verify.passed" (publish memory "verify.passed" second first).1).0
      ≡ inr (sort_keys (event "e1" "verify.passed") ∷ sort_keys second ∷ []))
    × ((key : String)
        → find key (fields_of (sort_keys second)) ≡ sorted_value (find key (fields_of second)))
unfolding publish Schema.validate default_registry first_full persist seq_floor probe enqueue replay
    read_log load find Dict.get Dict.put queue_of change sort_keys is_distinct
replay-publish_example =
    replay-publish memory memory-IsPort "verify.passed" second first
      (("verify.passed", 0, sort_keys (event "e1" "verify.passed")) ∷ [])
      (sort_keys (event "e1" "verify.passed") ∷ []) refl refl refl refl

two_orders :
    sort_keys (dict (obj (("b", int (pos 1)) ∷ ("a", int (pos 2)) ∷ [])))
    ≡ sort_keys (dict (obj (("a", int (pos 2)) ∷ ("b", int (pos 1)) ∷ [])))
unfolding sort_keys
two_orders = refl

pending-history_example :
    queue_of "verify.passed" "obs"
      (perform_all memory
        (subscribed "verify.passed" "obs" false
          ∷ published "verify.passed" (event "e1" "verify.passed")
          ∷ [])
        empty).1.queues
    ≡ some (event "e1" "verify.passed" ∷ [])
unfolding publish Schema.validate default_registry first_full persist seq_floor probe enqueue find
    Dict.get Dict.put queue_of change perform_all perform subscribe add_subscription history
    expected
pending-history_example =
    pending-history memory
      (subscribed "verify.passed" "obs" false
        ∷ published "verify.passed" (event "e1" "verify.passed")
        ∷ [])
      (some []) 2 2 "verify.passed" "obs"

-- A handler that always fails, counting its calls; it publishes on another topic before it fails.
abbrev failing : Handler memory ℕ
failing m calls b =
    (suc calls, (publish memory "verify.passed" (event "e9" "verify.passed") b).1, some "boom")

failing-Minds : Minds memory failing
failing-Minds = record {
  same_letters = λ m h b. (publish-letters memory "verify.passed" _ b).0;
  same_attempts = λ m h b. (publish-letters memory "verify.passed" _ b).1;
}

failing-Spares : Spares memory "fault.recorded" "obs" failing
unfolding perform_all perform
failing-Spares m h b =
    (published "verify.passed" (event "e9" "verify.passed") ∷ [], refl, (refl, tt))

-- A handler that publishes every message again.
abbrev echoing : Handler memory ℕ
echoing m calls b = (suc calls, (publish memory "fault.recorded" m b).1, none)

-- Two messages are pending for the handler, and the queue of `delivery.failed` holds two.
abbrev loading : List Call
loading =
    subscribed "fault.recorded" "obs" false
    ∷ subscribed "delivery.failed" "dlq" false
    ∷ published "fault.recorded" (event "e1" "fault.recorded")
    ∷ published "fault.recorded" (event "e2" "fault.recorded")
    ∷ published "delivery.failed" (event "e3" "delivery.failed")
    ∷ published "delivery.failed" (event "e4" "delivery.failed")
    ∷ []

abbrev loaded : ℕ → B memory
loaded depth = (perform_all memory loading (new_bus none depth 2)).1

deliver_with-accounts_example :
    let d = (deliver_with memory failing "fault.recorded" "obs" 0 (loaded 4)).1 in
    (d.delivered + d.dead ≡ pending "fault.recorded" "obs" (loaded 4))
    × (length d.bus.dead_letters ≡ 0 + d.dead)
unfolding publish Schema.validate default_registry first_full persist enqueue find Dict.get Dict.put
    queue_of change perform_all perform subscribe add_subscription deliver_with deliver_all
    deliver_one try_from give_up bury drain decimal
deliver_with-accounts_example =
    deliver_with-accounts memory failing failing-Minds "fault.recorded" "obs" 0 (loaded 4) 1 refl
      refl

-- With room for two messages in a queue, `delivery.failed` raises for the first message, after the
-- two attempts at it; the handler never sees the second message.
second_is_lost :
    let r = deliver_with memory failing "fault.recorded" "obs" 0 (loaded 2) in
    (r.0 ≡ some (Schema.backpressure "delivery.failed" "dlq")) × (r.1.state ≡ 2) × (r.1.dead ≡ 1)
unfolding publish Schema.validate default_registry first_full persist enqueue find Dict.get Dict.put
    queue_of change perform_all perform subscribe add_subscription deliver_with deliver_all
    deliver_one try_from give_up bury drain decimal
second_is_lost = (refl, refl, refl)

deliver_with-empties_example :
    queue_of "fault.recorded" "obs"
      (deliver_with memory failing "fault.recorded" "obs" 0 (loaded 2)).1.bus.queues
    ≡ some []
unfolding publish Schema.validate default_registry first_full persist enqueue find Dict.get Dict.put
    queue_of change perform_all perform subscribe add_subscription
deliver_with-empties_example =
    deliver_with-empties memory "fault.recorded" "obs" failing failing-Spares 0 (loaded 2)
      (event "e1" "fault.recorded" ∷ event "e2" "fault.recorded" ∷ [])
      (calls-IsWired memory loading none 2 2) refl refl

-- What a handler publishes on its own topic stays pending.
echo_test :
    pending "fault.recorded" "obs"
      (deliver_with memory echoing "fault.recorded" "obs" 0 (loaded 4)).1.bus
    ≡ 2
unfolding publish Schema.validate default_registry first_full persist enqueue find Dict.get Dict.put
    queue_of change perform_all perform subscribe add_subscription deliver_with deliver_all
    deliver_one try_from give_up bury drain decimal pending
echo_test = refl
