-- ===== src/Communication/Bus/Fifo.antt =====
-- src/communication/bus.py: the pending messages of a subscription over any calls.
use absolute_zero.Prelude.{
  ℕ, String, ◌≡◌, ◌∙◌, refl, ap, Bool, Option, none, List, [], ◌∷◌, is_some,
}
use absolute_zero.Prelude.Dict
use absolute_zero.Prelude.Dict.{get-put}
use absolute_zero.Value.{Value}
use absolute_zero.Communication.Bus.{Port, B, queue_of, new_bus}
use absolute_zero.Communication.Bus.Wiring.{
  IsWired, Call, subscribed, published, drained, perform, expected, subscribe-IsWired,
  subscribe-queue, drain-queue, publish-queue, publish-IsWired, drain-IsWired,
}

module _ (p : Port) where
  pub perform-IsWired : (call : Call) (b : B p) → IsWired b → IsWired (perform p call b).1
  unfolding perform
  perform-IsWired (subscribed u r durable) b h = subscribe-IsWired p u r durable b h
  perform-IsWired (published u m) b h = publish-IsWired p u m b h
  perform-IsWired (drained u r) b h = drain-IsWired p u r b h

  pub perform-queue :
      (call : Call) (b : B p) (t s : String)
      → IsWired b
      → queue_of t s (perform p call b).1.queues
        ≡ expected t s call (is_some (perform p call b).0) (queue_of t s b.queues)
  unfolding perform
  perform-queue (subscribed u r durable) b t s h = subscribe-queue p t s u r durable b
  perform-queue (published u m) b t s h = publish-queue p t s u m b h
  perform-queue (drained u r) b t s h = drain-queue p t s u r b

  -- The calls in turn, each with whether it raised.
  unfoldable pub perform_all : List Call → B p → List (Call × Bool) × B p
  unfolding perform
  perform_all [] b = ([], b)
  perform_all (call ∷ calls) b =
      let (refusal, b') = perform p call b in
      let (trace, b'') = perform_all calls b' in ((call, is_some refusal) ∷ trace, b'')

-- The pending messages of one subscription, told from the trace alone.
unfoldable pub history :
    String → String → List (Call × Bool) → Option (List Value) → Option (List Value)
unfolding expected
history t s [] q = q
history t s ((call, raised) ∷ trace) q = history t s trace (expected t s call raised q)

module _ (p : Port) where
  open p use {Store}

  perform_all-history :
      (calls : List Call) (b : B p) (t s : String)
      → IsWired b
      → queue_of t s (perform_all p calls b).1.queues
        ≡ history t s (perform_all p calls b).0 (queue_of t s b.queues)
  unfolding perform_all history
  perform_all-history [] b t s h = refl
  perform_all-history (call ∷ calls) b t s h =
      perform_all-history calls (perform p call b).1 t s (perform-IsWired p call b h)
      ∙ ap (history t s (perform_all p calls (perform p call b).1).0) (perform-queue p call b t s h)

  perform_all-IsWired :
      (calls : List Call) (b : B p) → IsWired b → IsWired (perform_all p calls b).1
  unfolding perform_all
  perform_all-IsWired [] b h = h
  perform_all-IsWired (call ∷ calls) b h =
      perform_all-IsWired calls (perform p call b).1 (perform-IsWired p call b h)

  new_bus-IsWired :
      (storage : Option Store) (depth attempts : ℕ)
      → IsWired {S = Store} (new_bus storage depth attempts)
  unfolding queue_of Dict.get
  new_bus-IsWired storage depth attempts = record { queued = λ u r. refl; once = λ u. refl }

  -- Whatever its calls, a bus is wired.
  pub calls-IsWired :
      (calls : List Call) (storage : Option Store) (depth attempts : ℕ)
      → IsWired (perform_all p calls (new_bus storage depth attempts)).1
  calls-IsWired calls storage depth attempts =
      perform_all-IsWired calls (new_bus storage depth attempts)
        (new_bus-IsWired storage depth attempts)

  -- Whatever calls of `subscribe`, `publish` and `drain` a new bus gets, with or without storage,
  -- what a subscription has pending at the end is told by the trace of the calls alone: its
  -- messages are those published on its topic by calls that did not raise, since it subscribed or
  -- last drained, in the order of publication and each of them once.
  pub pending-history :
      (calls : List Call) (storage : Option Store) (depth attempts : ℕ) (t s : String)
      → let r = perform_all p calls (new_bus storage depth attempts) in
        queue_of t s r.1.queues ≡ history t s r.0 none
  unfolding queue_of
  pending-history calls storage depth attempts t s =
      perform_all-history calls (new_bus storage depth attempts) t s
        (new_bus-IsWired storage depth attempts)
