-- ===== src/Communication/Bus/Wiring.antt =====
-- src/communication/bus.py: each call of the bus against the queues and the subscribers.
use absolute_zero.Prelude.{
  String, ◌≡◌, ◌∙◌, refl, sym, ap, ◌⊎◌, inl, inr, Bool, true, false, ◌&&◌, Option, none, some, List,
  [], ◌∷◌, ◌++◌, elem, arith, or_else, is_some, str_eq, eq_iff, Bool-cases, Option-cases,
  if◌then◌else◌,
}
use absolute_zero.Prelude.Dict
use absolute_zero.Prelude.Dict.{get-put}
use absolute_zero.Value.{Value}
use absolute_zero.Communication.Schema
use absolute_zero.Communication.Schema.{Refusal}
use absolute_zero.Communication.Bus.{
  Port, Bus, B, queue_of, enqueue, subscribers_of, subscribe, add_subscription, drain, persist,
  publish, seq_floor, first_full,
}
use absolute_zero.Communication.Bus.Queues.{
  on_queue, distinct, queue_of-change, queue_of-enqueue, queue_of-append, elem-snoc, distinct-snoc,
}

-- The subscribers of a topic are those with a queue on it, each of them once.
pub record IsWired {S : Type 0} (b : Bus S) : Type 0 where
  pub queued : (t s : String) → is_some (queue_of t s b.queues) ≡ elem s (subscribers_of t b)
  pub once : (t : String) → distinct (subscribers_of t b) ≡ true

-- The calls of the bus.
pub data Call : Type 0 where
  subscribed : String → String → Bool → Call
  published : String → Value → Call
  drained : String → String → Call

module _ (p : Port) where
  open p use {Store}

  unfoldable pub refusal_of : Refusal ⊎ List Value → Option Refusal
  refusal_of (inl r) = some r
  refusal_of (inr ms) = none

  -- One call, and the exception that it raises.
  unfoldable pub perform : Call → B p → Option Refusal × B p
  unfolding refusal_of subscribe publish drain
  perform (subscribed t s durable) b = subscribe t s durable b
  perform (published t m) b = publish p t m b
  perform (drained t s) b = let (r, b') = drain t s b in (refusal_of r, b')

-- What one call makes of the pending messages of one subscription: nothing if it raises; an empty
-- queue if it subscribes; the message at the end if it publishes on the topic; none if it drains.
unfoldable pub expected : String → String → Call → Bool → Option (List Value) → Option (List Value)
expected t s call true q = q
expected t s (subscribed u r durable) false q = if str_eq u t && str_eq r s then some [] else q
expected t s (published u m) false q = if str_eq u t then on_queue (λ ms. ms ++ m ∷ []) q else q
expected t s (drained u r) false q = if str_eq u t && str_eq r s then on_queue (λ ms. []) q else q

module _ (p : Port) where
  same_wires :
      (b c : B p) → c.queues ≡ b.queues → c.subscribers ≡ b.subscribers → IsWired b → IsWired c
  same_wires b c q s h = record {
    queued = λ t r.
        ap (λ qs. is_some (queue_of t r qs)) q
        ∙ h.queued t r
        ∙ ap (λ subs. elem r (or_else (Dict.get t subs) [])) (sym s);
    once = λ t. ap (λ subs. distinct (or_else (Dict.get t subs) [])) s ∙ h.once t;
  }

  add-queue :
      (t s u r : String) (durable : Bool) (b : B p)
      → queue_of u r b.queues ≡ none
      → queue_of t s (add_subscription u r durable b).queues
        ≡ (if str_eq u t && str_eq r s then some [] else queue_of t s b.queues)
  unfolding add_subscription
  add-queue t s u r durable b new =
      ground (arith, queue_of-append t s u r b.queues, eq_iff u t, eq_iff r s, new)

  add-subscribers :
      (t u r : String) (durable : Bool) (b : B p)
      → subscribers_of t (add_subscription u r durable b)
        ≡ (if str_eq u t then subscribers_of u b ++ r ∷ [] else subscribers_of t b)
  unfolding add_subscription
  add-subscribers t u r durable b =
      ground (arith, get-put u t (subscribers_of u b ++ r ∷ []) b.subscribers, eq_iff u t)

  add-IsWired :
      (u r : String) (durable : Bool) (b : B p)
      → queue_of u r b.queues ≡ none
      → IsWired b
      → IsWired (add_subscription u r durable b)
  add-IsWired u r durable b new h = record {
    queued = λ t s.
        ap is_some (add-queue t s u r durable b new)
        ∙ ground (
          arith,
          elem-snoc s r (subscribers_of u b),
          h.queued t s,
          eq_iff u t,
          eq_iff s r,
          eq_iff r s,
        )
        ∙ ap (elem s) (sym (add-subscribers t u r durable b));
    once = λ t.
        ap distinct (add-subscribers t u r durable b)
        ∙ ground
            (arith, distinct-snoc r (subscribers_of u b), h.once u, h.once t, h.queued u r, new);
  }

  -- `subscribe` refuses and changes nothing, or adds a subscription that was not there.
  subscribe-cases :
      (t s : String) (durable : Bool) (b : B p)
      → ((is_some (subscribe t s durable b).0 ≡ true) × ((subscribe t s durable b).1 ≡ b))
        ⊎ ((subscribe t s durable b ≡ (none, add_subscription t s durable b))
            × (queue_of t s b.queues ≡ none))
  unfolding subscribe
  subscribe-cases t s durable b = elim (Bool-cases (is_some (Dict.get t b.registry))) [
    | inr unknown ↦ rw (unknown, subscribe) (inl (refl, refl))
    | inl known ↦ elim (Bool-cases (durable && (if is_some b.storage then false else true))) [
      | inl lost ↦ rw (known, lost, subscribe) (inl (refl, refl))
      | inr kept ↦ elim (Option-cases (queue_of t s b.queues)) [
        | inl new ↦ rw (known, kept, new, subscribe) (inr (refl, refl))
        | inr (ms, old) ↦ rw (known, kept, old, subscribe) (inl (refl, refl))
      ]
    ]
  ]

  pub subscribe-IsWired :
      (t s : String) (durable : Bool) (b : B p) → IsWired b → IsWired (subscribe t s durable b).1
  subscribe-IsWired t s durable b h = elim (subscribe-cases t s durable b) [
    | inl (refused, same) ↦ rw same h
    | inr (added, new) ↦ rw added (add-IsWired t s durable b new h)
  ]

  pub subscribe-queue :
      (t s u r : String) (durable : Bool) (b : B p)
      → queue_of t s (subscribe u r durable b).1.queues
        ≡ expected t s
            (subscribed u r durable)
            (is_some (subscribe u r durable b).0)
            (queue_of t s b.queues)
  unfolding expected
  subscribe-queue t s u r durable b = elim (subscribe-cases u r durable b) [
    | inl (refused, same) ↦ rw (refused, same) refl
    | inr (added, new) ↦ rw added (add-queue t s u r durable b new)
  ]

  pub drain-queue :
      (t s u r : String) (b : B p)
      → queue_of t s (drain u r b).1.queues
        ≡ expected t s
            (drained u r)
            (is_some (refusal_of p (drain u r b).0))
            (queue_of t s b.queues)
  unfolding drain expected refusal_of
  drain-queue t s u r b = elim (Option-cases (queue_of u r b.queues)) [
    | inl missing ↦ ground arith
    | inr (ms, found) ↦ ground (arith, queue_of-change t s u r (λ ms. []) b.queues)
  ]

  pub persist-keeps :
      (t : String) (m : Value) (b : B p)
      → ((persist p t m b).1.queues ≡ b.queues) × ((persist p t m b).1.subscribers ≡ b.subscribers)
  unfolding persist seq_floor
  persist-keeps t m b = ground arith

  -- `publish` raises and enqueues nothing, or returns and enqueues to every subscriber.
  pub publish-cases :
      (u : String) (m : Value) (b : B p)
      → let r = publish p u m b in
        (r.1.subscribers ≡ b.subscribers)
        × ((is_some r.0 ≡ true) × (r.1.queues ≡ b.queues)
            ⊎ (is_some r.0 ≡ false) × (r.1.queues ≡ enqueue u (subscribers_of u b) m b.queues))
  unfolding publish
  publish-cases u m b = elim (Option-cases (Schema.validate u m b.registry)) [
    | inr (refusal, bad) ↦ rw (bad, publish) (refl, inl (refl, refl))
    | inl good ↦ elim (Option-cases (first_full u (subscribers_of u b) b)) [
      | inr (s, full) ↦ rw (good, full, publish) (refl, inl (refl, refl))
      | inl room ↦ elim (Option-cases (persist p u m b).0) [
        | inr (refusal, raised) ↦
            rw (good, room, raised, publish)
              ((persist-keeps u m b).1, inl (refl, (persist-keeps u m b).0))
        | inl written ↦
            let (queues, subs) = persist-keeps u m b in
            rw (good, room, written, publish)
              (
                subs,
                inr (
                  refl,
                  ap (λ l. enqueue u (or_else (Dict.get u l) []) m (persist p u m b).1.queues) subs
                      ∙ ap (enqueue u (subscribers_of u b) m) queues,
                ),
              )
      ]
    ]
  ]

  enqueue-on_queue :
      (f : List Value → List Value) (q : Option (List Value)) → is_some (on_queue f q) ≡ is_some q
  enqueue-on_queue f none = refl
  enqueue-on_queue f (some ms) = refl

  pub publish-queue :
      (t s u : String) (m : Value) (b : B p)
      → IsWired b
      → queue_of t s (publish p u m b).1.queues
        ≡ expected t s (published u m) (is_some (publish p u m b).0) (queue_of t s b.queues)
  unfolding expected
  publish-queue t s u m b h = elim (publish-cases u m b).1 [
    | inl (raised, same) ↦ rw raised (ap (queue_of t s) same)
    | inr (sent, queued) ↦ rw sent (
        ap (queue_of t s) queued
        ∙ queue_of-enqueue t s u (subscribers_of u b) m b.queues (h.once u)
        ∙ to_subscriber (h.queued t s))
  ]
    where
      to_subscriber :
          is_some (queue_of t s b.queues) ≡ elem s (subscribers_of t b)
          → (if str_eq u t && elem s (subscribers_of u b)
              then on_queue (λ ms. ms ++ m ∷ []) (queue_of t s b.queues)
              else queue_of t s b.queues)
            ≡ (if str_eq u t
                then on_queue (λ ms. ms ++ m ∷ []) (queue_of t s b.queues)
                else queue_of t s b.queues)
      to_subscriber w = ground (arith, eq_iff u t)

  pub publish-IsWired : (u : String) (m : Value) (b : B p) → IsWired b → IsWired (publish p u m b).1
  publish-IsWired u m b h =
      let (subs, how) = publish-cases u m b in
      elim how [
        | inl (raised, same) ↦ same_wires b _ same subs h
        | inr (sent, queued) ↦
            same_wires (record b { queues = enqueue u (subscribers_of u b) m b.queues }) _ queued
              subs
              (record {
                queued = λ t s.
                    ap is_some (queue_of-enqueue t s u (subscribers_of u b) m b.queues (h.once u))
                    ∙ ground (
                      arith,
                      enqueue-on_queue (λ ms. ms ++ m ∷ []) (queue_of t s b.queues),
                      h.queued t s,
                    );
                once = h.once;
              })
      ]

  pub drain-IsWired : (t s : String) (b : B p) → IsWired b → IsWired (drain t s b).1
  unfolding drain
  drain-IsWired t s b h = elim (Option-cases (queue_of t s b.queues)) [
    | inl missing ↦ rw (missing, drain) h
    | inr (ms, found) ↦
        rw (found, drain)
          (record {
            queued = λ u r.
                ap is_some (queue_of-change u r t s (λ ms. []) b.queues)
                ∙ ground (arith, enqueue-on_queue (λ ms. []) (queue_of u r b.queues), h.queued u r);
            once = h.once;
          })
  ]
