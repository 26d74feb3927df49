-- ===== src/Communication/Bus.antt =====
-- src/communication/bus.py: the bus, over a storage port and a JSON codec that are parameters.
pub mod Queues
pub mod Wiring
pub mod Fifo
pub mod Push
pub mod Poison
pub mod Durable
use absolute_zero.Prelude.{
  ℕ, zero, suc, ◌+◌, ◌⊎◌, inl, inr, String, ◌≡◌, Bool, true, false, Option, none, some, List, [],
  ◌∷◌, ◌++◌, elem, leb, length, or_else, is_some, str_eq, ◌&&◌, ◌==◌, if◌then◌else◌,
}
use absolute_zero.Prelude.Dict
use absolute_zero.Prelude.Dict.{Dict}
use absolute_zero.Value.{
  Value, null, int, pos, str, dict, Fields, end, field, find, value_or_null, obj, decimal,
}
use Prim.Native.String.{◌++◌ as ◌^◌}
use absolute_zero.Communication.Schema
use absolute_zero.Communication.Schema.{
  Kind, Refusal, default_registry, topic_already_registered, unknown_topic, no_storage_for_durable,
  duplicate_subscription, backpressure, unknown_subscription, no_storage_to_replay, storage_raised,
}

-- The storage port. `_LOG_KEY % (topic, seq)` is the pair of the two; a read or a write that
-- raises answers `none`. `beyond` is a sequence number at which a topic of the store has no entry.
pub record Port : Type 1 where
  pub Store : Type 0
  pub Bytes : Type 0
  pub write : String → ℕ → Bytes → Store → Option Store
  pub read : String → ℕ → Store → Option Bytes
  pub beyond : String → Store → ℕ
  pub dumps : Value → Bytes
  pub loads : Bytes → Option Value

pub record DeadLetter : Type 0 where
  pub topic : String
  pub subscriber : String
  pub message : Value
  pub reason : String

-- `self._queues`: (topic, subscriber) to the messages pending.
abbrev pub Queues : Type 0
Queues = List (String × String × List Value)

unfoldable pub queue_of : String → String → Queues → Option (List Value)
queue_of t s [] = none
queue_of t s ((u, r, ms) ∷ qs) = if str_eq u t && str_eq r s then some ms else queue_of t s qs

-- A queue replaced by what a function makes of it.
unfoldable pub change : String → String → (List Value → List Value) → Queues → Queues
change t s f [] = []
change t s f ((u, r, ms) ∷ qs) =
    let rest = change t s f qs in
    if str_eq u t && str_eq r s then (u, r, f ms) ∷ rest else (u, r, ms) ∷ rest

-- The message appended to the queue of each of the subscribers.
unfoldable pub enqueue : String → List String → Value → Queues → Queues
unfolding change
enqueue topic [] message qs = qs
enqueue topic (s ∷ more) message qs =
    enqueue topic more message (change topic s (λ ms. ms ++ message ∷ []) qs)

pub record Bus (S : Type 0) : Type 0 where
  pub storage : Option S
  pub max_queue_depth : ℕ
  pub max_attempts : ℕ
  pub registry : Dict Kind
  pub dead_letters : List DeadLetter
  pub queues : Queues
  pub subscribers : Dict (List String)
  pub durable : List (String × String)
  pub log_seq : Dict ℕ

-- `Bus(storage, max_queue_depth, max_attempts)`
abbrev pub new_bus : {S : Type 0} → Option S → ℕ → ℕ → Bus S
new_bus storage depth attempts = record {
  storage = storage;
  max_queue_depth = depth;
  max_attempts = attempts;
  registry = default_registry;
  dead_letters = [];
  queues = [];
  subscribers = [];
  durable = [];
  log_seq = [];
}

module _ {S : Type 0} where
  unfoldable pub register_topic : String → Kind → Bus S → Option Refusal × Bus S
  unfolding Dict.get Dict.put
  register_topic topic kind b =
      if is_some (Dict.get topic b.registry)
      then (some (topic_already_registered topic), b)
      else (none, record b { registry = Dict.put topic kind b.registry })

  -- `self._subscribers.get(topic, ())`
  abbrev pub subscribers_of : String → Bus S → List String
  subscribers_of topic b = or_else (Dict.get topic b.subscribers) []

  -- `subscribe`, past the checks.
  unfoldable pub add_subscription : String → String → Bool → Bus S → Bus S
  unfolding Dict.get Dict.put
  add_subscription topic subscriber durable b = record b {
    queues = b.queues ++ (topic, subscriber, []) ∷ [];
    subscribers = Dict.put topic (subscribers_of topic b ++ subscriber ∷ []) b.subscribers;
    durable = if durable then (topic, subscriber) ∷ b.durable else b.durable;
  }

  unfoldable pub subscribe : String → String → Bool → Bus S → Option Refusal × Bus S
  unfolding queue_of Dict.get
  subscribe topic subscriber durable b =
      if is_some (Dict.get topic b.registry)
      then (if durable && (if is_some b.storage then false else true)
          then (some (no_storage_for_durable topic), b)
          else if is_some (queue_of topic subscriber b.queues)
          then (some (duplicate_subscription topic subscriber), b)
          else (none, add_subscription topic subscriber durable b))
      else (some (unknown_topic topic), b)

  -- The first subscriber whose queue is full.
  unfoldable pub first_full : String → List String → Bus S → Option String
  unfolding queue_of
  first_full topic [] b = none
  first_full topic (s ∷ more) b =
      let rest = first_full topic more b in
      if leb b.max_queue_depth (length (or_else (queue_of topic s b.queues) []))
      then some s
      else rest

  unfoldable pub drain : String → String → Bus S → (Refusal ⊎ List Value) × Bus S
  unfolding queue_of change
  drain topic subscriber b = elim (queue_of topic subscriber b.queues) [
    | none ↦ (inl (unknown_subscription topic subscriber), b)
    | some ms ↦ (inr ms, record b { queues = change topic subscriber (λ ms. []) b.queues })
  ]

  unfoldable pub pending : String → String → Bus S → ℕ
  unfolding queue_of
  pending topic subscriber b = length (or_else (queue_of topic subscriber b.queues) [])

module _ (p : Port) where
  open p use {Store, Bytes, write, read, beyond, dumps, loads}

  abbrev pub B : Type 0
  B = Bus Store

  -- The loop of `_seq_floor`: the first number from `seq` on that cannot be read.
  unfoldable pub probe : ℕ → String → ℕ → Store → ℕ
  probe zero topic seq st = seq
  probe (suc fuel) topic seq st =
      let rest = probe fuel topic (seq + 1) st in if is_some (read topic seq st) then rest else seq

  unfoldable pub seq_floor : String → Store → B → ℕ × B
  unfolding probe Dict.get Dict.put
  seq_floor topic st b = elim (Dict.get topic b.log_seq) [
    | some seq ↦ (seq, b)
    | none ↦
        let seq = probe (beyond topic st) topic 0 st in
        (seq, record b { log_seq = Dict.put topic seq b.log_seq })
  ]

  -- The durable half of `publish`.
  unfoldable pub persist : String → Value → B → Option Refusal × B
  unfolding seq_floor Dict.put
  persist topic message b = elim b.storage [
    | none ↦ (none, b)
    | some st ↦
        let (seq, b') = seq_floor topic st b in
        elim (write topic seq (dumps message) st) [
          | none ↦ (some storage_raised, b')
          | some st' ↦ (
            none,
            record b' { storage = some st'; log_seq = Dict.put topic (seq + 1) b'.log_seq },
          )
        ]
  ]

  unfoldable pub publish : String → Value → B → Option Refusal × B
  unfolding Schema.validate first_full persist enqueue Dict.get
  publish topic message b = elim (Schema.validate topic message b.registry) [
    | some refusal ↦ (some refusal, b)
    | none ↦ elim (first_full topic (subscribers_of topic b) b) [
      | some s ↦ (some (backpressure topic s), b)
      | none ↦
          let (refusal, b') = persist topic message b in
          elim refusal [
            | some r ↦ (some r, b')
            | none ↦ (
              none,
              record b' { queues = enqueue topic (subscribers_of topic b') message b'.queues },
            )
          ]
    ]
  ]

  -- `json.loads(self.storage.read(key).decode())`
  unfoldable pub load : Option Bytes → Option Value
  load none = none
  load (some bytes) = loads bytes

  -- The loop of `replay`: `count` entries from `seq` on.
  unfoldable pub read_log : ℕ → String → ℕ → Store → Option (List Value)
  unfolding load
  read_log zero topic seq st = some []
  read_log (suc count) topic seq st =
      let rest = read_log count topic (seq + 1) st in
      elim (load (read topic seq st)) [
        | none ↦ none
        | some message ↦ elim rest [ none ↦ none | some ms ↦ some (message ∷ ms) ]
      ]

  unfoldable pub replay : String → B → (Refusal ⊎ List Value) × B
  unfolding seq_floor read_log
  replay topic b = elim b.storage [
    | none ↦ (inl (no_storage_to_replay topic), b)
    | some st ↦
        let (count, b') = seq_floor topic st b in
        elim (read_log count topic 0 st) [
          | none ↦ (inl storage_raised, b')
          | some ms ↦ (inr ms, b')
        ]
  ]
