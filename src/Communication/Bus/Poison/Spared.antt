-- ===== src/Communication/Bus/Poison/Spared.antt =====
-- src/communication/bus.py: the queue that push delivery leaves.
use mathlib.Core.Path.{subst}
use absolute_zero.Prelude.{
  ℕ, zero, suc, ◌+◌, String, ◌≡◌, ◌∙◌, refl, sym, ap, inl, inr, Bool, true, false, some, List, [],
  ◌∷◌, ◌++◌, All, arith, str_eq, eq_iff, Option-cases, Bool-cases, ◌==◌, is_some,
}
use absolute_zero.Value.{Value}
use absolute_zero.Communication.Bus.{Port, B, DeadLetter, queue_of, drain}
use absolute_zero.Communication.Bus.Push.{
  Handler, bury, letter_of, give_up, try_from, Delivery, deliver_one, deliver_all, deliver_with,
}
use absolute_zero.Communication.Bus.Queues.{queue_of-change}
use absolute_zero.Communication.Bus.Wiring.{
  IsWired, Call, subscribed, published, drained, expected, perform, publish-IsWired, publish-queue,
  drain-IsWired,
}
use absolute_zero.Communication.Bus.Fifo.{perform_all, perform-IsWired, perform-queue}
use absolute_zero.Communication.Bus.Poison.{
  drained_bus, deliver_with-found, bus_after, raised_by, tried,
}

-- A call that puts nothing on a topic.
abbrev pub Elsewhere : String → Call → Type 0
Elsewhere t (published u m) = str_eq u t ≡ false
Elsewhere t (subscribed u r durable) = Unit
Elsewhere t (drained u r) = Unit

expected-Elsewhere :
    (t s : String) (call : Call) (raised : Bool)
    → Elsewhere t call
    → expected t s call raised (some []) ≡ some []
unfolding expected
expected-Elsewhere t s call true other = refl
expected-Elsewhere t s (published u m) false other = rw other refl
expected-Elsewhere t s (subscribed u r durable) false other = ground arith
expected-Elsewhere t s (drained u r) false other = ground arith

module _ (p : Port) (t s : String) where
  -- A wired bus on which nothing is pending for the subscription.
  record IsEmpty (b : B p) : Type 0 where
    wired : IsWired b
    empty : queue_of t s b.queues ≡ some []

  calls-IsEmpty :
      (calls : List Call) (b : B p)
      → All (Elsewhere t) calls
      → IsEmpty b
      → IsEmpty (perform_all p calls b).1
  unfolding perform_all
  calls-IsEmpty [] b other h = h
  calls-IsEmpty (call ∷ calls) b other h =
      calls-IsEmpty calls (perform p call b).1 other.1 (record {
        wired = perform-IsWired p call b h.wired;
        empty =
            perform-queue p call b t s h.wired
            ∙ ap (expected t s call (is_some (perform p call b).0)) h.empty
            ∙ expected-Elsewhere t s call (is_some (perform p call b).0) other.0;
      })

  -- Burying a message of another topic.
  bury-IsEmpty :
      (letter : DeadLetter) (b : B p)
      → str_eq "delivery.failed" t ≡ false
      → IsEmpty b
      → IsEmpty (bury p letter b).1
  unfolding bury
  bury-IsEmpty letter b other h =
      let c : B p = record b { dead_letters = b.dead_letters ++ letter ∷ [] } in
      let wired : IsWired c = record { queued = h.wired.queued; once = h.wired.once } in
      record {
        wired = publish-IsWired p "delivery.failed" _ c wired;
        empty =
            publish-queue p t s "delivery.failed" _ c wired
            ∙ ap (expected t s (published "delivery.failed" _) _) h.empty
            ∙ expected-Elsewhere t s (published "delivery.failed" _) _ other;
      }

  module _ {H : Type 0} (handler : Handler p H) where
    -- What the handler does on the bus are calls that publish nothing on the topic.
    abbrev pub Spares : Type 0
    Spares =
        (m : Value) (h : H) (b : B p)
        → (calls : List Call) × ((handler m h b).1 ≡ (perform_all p calls b).1)
          × All (Elsewhere t) calls

    tried-IsEmpty :
        Spares
        → (m : Value) (d : Delivery p handler) → IsEmpty d.bus
        → IsEmpty (bus_after p handler m d)
    tried-IsEmpty spares m d h =
        let (calls, same, other) = spares m d.state d.bus in
        subst IsEmpty (sym same) (calls-IsEmpty calls d.bus other h)

    try_from-IsEmpty :
        Spares
        → str_eq "delivery.failed" t ≡ false
        → (left attempt : ℕ) (u r : String) (m : Value) (d : Delivery p handler) → IsEmpty d.bus
        → IsEmpty (try_from p handler left attempt u r m d).1.bus
    unfolding try_from give_up
    try_from-IsEmpty spares other zero attempt u r m d h = h
    try_from-IsEmpty spares other (suc left) attempt u r m d h =
        let next = tried p handler m d in
        let on = tried-IsEmpty spares m d h in
        elim (Option-cases (raised_by p handler m d)) [
          | inl fine ↦ rw (fine, try_from) on
          | inr (reason, bad) ↦
              elim (Bool-cases (attempt == (bus_after p handler m d).max_attempts)) [
                | inr early ↦
                    rw (bad, early, try_from)
                      (try_from-IsEmpty spares other left (attempt + 1) u r m next on)
                | inl last ↦
                    let letter = letter_of u r m reason in
                    let buried = (give_up p handler letter next).1 in
                    let kept = bury-IsEmpty letter next.bus other on in
                    elim (Option-cases (bury p letter next.bus).0) [
                      | inl told ↦
                          rw (bad, last, told, try_from)
                            (try_from-IsEmpty spares other left (attempt + 1) u r m buried kept)
                      | inr (refusal, untold) ↦ rw (bad, last, untold, try_from) kept
                    ]
              ]
        ]

    deliver_all-IsEmpty :
        Spares
        → str_eq "delivery.failed" t ≡ false
        → (ms : List Value) (d : Delivery p handler) → IsEmpty d.bus
        → IsEmpty (deliver_all p handler t s ms d).1.bus
    unfolding deliver_all deliver_one
    deliver_all-IsEmpty spares other [] d h = h
    deliver_all-IsEmpty spares other (m ∷ ms) d h =
        let next = (deliver_one p handler t s m d).1 in
        let kept = try_from-IsEmpty spares other d.bus.max_attempts 1 t s m d h in
        elim (Option-cases (deliver_one p handler t s m d).0) [
          | inr (refusal, raised) ↦ rw (raised, deliver_all) kept
          | inl fine ↦ rw (fine, deliver_all) (deliver_all-IsEmpty spares other ms next kept)
        ]

    drained_bus-IsEmpty :
        (b : B p) (ms : List Value)
        → IsWired b
        → queue_of t s b.queues ≡ some ms
        → IsEmpty (drained_bus p handler t s b)
    unfolding drain
    drained_bus-IsEmpty b ms w found =
        let same : (drain t s b).1 ≡ drained_bus p handler t s b = ground arith in
        record {
          wired = subst (λ c. IsWired c) same (drain-IsWired p t s b w);
          empty =
              ground
                (arith, queue_of-change t s t s (λ l. []) b.queues, eq_iff t t, eq_iff s s, found);
        }

    -- On a wired bus and a topic other than `delivery.failed`, and for a handler whose only calls of the
    -- bus are `subscribe`, `drain`, and `publish` on another topic: `deliver_with` leaves the queue of
    -- its subscription empty, even if a publication of `delivery.failed` raises before the handler has
    -- seen all the messages.
    pub deliver_with-empties :
        Spares
        → (h : H) (b : B p) (ms : List Value) → IsWired b
        → str_eq "delivery.failed" t ≡ false
        → queue_of t s b.queues ≡ some ms
        → queue_of t s (deliver_with p handler t s h b).1.bus.queues ≡ some []
    deliver_with-empties spares h b ms w other found =
        ap (λ r. queue_of t s r.1.bus.queues) (deliver_with-found p handler t s h b ms found)
        ∙ (deliver_all-IsEmpty spares other ms
            (record { delivered = 0; dead = 0; state = h; bus = drained_bus p handler t s b })
            (drained_bus-IsEmpty b ms w found)).empty
