-- ===== src/Communication/Bus/Poison.antt =====
-- src/communication/bus.py: the counts of push delivery.
pub mod Spared
use mathlib.Core.Path.{subst}
use absolute_zero.Prelude.{
  ℕ, zero, suc, ◌+◌, String, ◌≡◌, ◌≢◌, ◌∙◌, refl, sym, ap, inl, inr, Bool, true, false, Option,
  none, some, List, [], ◌∷◌, ◌++◌, length, length-append, arith, str_eq, eq_iff, Option-cases, ◌==◌,
  Bool-cases,
}
use absolute_zero.Value.{Value}
use absolute_zero.Communication.Bus.{
  Port, B, DeadLetter, queue_of, change, publish, persist, seq_floor, drain, pending,
}
use absolute_zero.Communication.Bus.Push.{
  Handler, bury, letter_of, give_up, try_from, Delivery, deliver_one, deliver_all, deliver_with,
}

module _ (p : Port) where
  pub publish-letters :
      (t : String) (m : Value) (b : B p)
      → ((publish p t m b).1.dead_letters ≡ b.dead_letters)
        × ((publish p t m b).1.max_attempts ≡ b.max_attempts)
  unfolding publish persist seq_floor
  publish-letters t m b = ground arith

  bury-letters :
      (letter : DeadLetter) (b : B p)
      → ((bury p letter b).1.dead_letters ≡ b.dead_letters ++ letter ∷ [])
        × ((bury p letter b).1.max_attempts ≡ b.max_attempts)
  unfolding bury
  bury-letters letter b =
      publish-letters "delivery.failed" _
        (record b { dead_letters = b.dead_letters ++ letter ∷ [] })

module _ (p : Port) {H : Type 0} (handler : Handler p H) where
  -- What the handler has done to the bus, and what it has raised.
  abbrev pub bus_after : Value → Delivery p handler → B p
  bus_after m d = (handler m d.state d.bus).1

  abbrev pub raised_by : Value → Delivery p handler → Option String
  raised_by m d = (handler m d.state d.bus).2

  abbrev pub tried : Value → Delivery p handler → Delivery p handler
  tried m d = record d { state = (handler m d.state d.bus).0; bus = bus_after m d }

  -- Whatever the handler does on the bus, it keeps no dead letters of its own there and leaves the
  -- number of attempts.
  pub record Minds : Type 0 where
    pub same_letters :
        (m : Value) (h : H) (b : B p) → (handler m h b).1.dead_letters ≡ b.dead_letters
    pub same_attempts :
        (m : Value) (h : H) (b : B p) → (handler m h b).1.max_attempts ≡ b.max_attempts

  try_from-fine :
      (left attempt : ℕ) (t s : String) (m : Value) (d : Delivery p handler)
      → raised_by m d ≡ none
      → try_from p handler (suc left) attempt t s m d
        ≡ (none, record (tried m d) { delivered = d.delivered + 1 })
  unfolding try_from
  try_from-fine left attempt t s m d fine = rw (fine, try_from) refl

  try_from-again :
      (left attempt : ℕ) (t s : String) (m : Value) (d : Delivery p handler) (reason : String)
      → raised_by m d ≡ some reason
      → (attempt == (bus_after m d).max_attempts) ≡ false
      → try_from p handler (suc left) attempt t s m d
        ≡ try_from p handler left (attempt + 1) t s m (tried m d)
  unfolding try_from
  try_from-again left attempt t s m d reason bad early = rw (bad, early, try_from) refl

  -- Nothing follows the last attempt.
  try_from-last :
      (attempt : ℕ) (t s : String) (m : Value) (d : Delivery p handler) (reason : String)
      → raised_by m d ≡ some reason
      → (attempt == (bus_after m d).max_attempts) ≡ true
      → (try_from p handler 1 attempt t s m d).1
        ≡ (give_up p handler (letter_of t s m reason) (tried m d)).1
  unfolding try_from
  try_from-last attempt t s m d reason bad last =
      elim (Option-cases (give_up p handler (letter_of t s m reason) (tried m d)).0) [
        | inl told ↦ rw (bad, last, told, try_from) refl
        | inr (refusal, untold) ↦ rw (bad, last, untold, try_from) refl
      ]

  record Counted (n : ℕ) (d e : Delivery p handler) : Type 0 where
    counts : e.delivered + e.dead ≡ d.delivered + d.dead + n
    letters : length e.bus.dead_letters + d.dead ≡ length d.bus.dead_letters + e.dead
    attempts : e.bus.max_attempts ≡ d.bus.max_attempts

  give_up-Counted :
      (letter : DeadLetter) (d : Delivery p handler) → Counted 1 d (give_up p handler letter d).1
  unfolding give_up
  give_up-Counted letter d =
      let (letters, attempts) = bury-letters p letter d.bus in
      record {
        counts = omega arith;
        letters = omega (arith, ap length letters, length-append d.bus.dead_letters (letter ∷ []));
        attempts = attempts;
      }

  -- What is counted from after the handler is counted from before it.
  tried-Counted :
      Minds
      → (m : Value) (n : ℕ) (d e : Delivery p handler) → Counted n (tried m d) e
      → Counted n d e
  tried-Counted minds m n d e after = record {
    counts = after.counts;
    letters = after.letters ∙ ap (λ ls. length ls + e.dead) (minds.same_letters m d.state d.bus);
    attempts = after.attempts ∙ minds.same_attempts m d.state d.bus;
  }

  fine-Counted :
      Minds
      → (left attempt : ℕ) (t s : String) (m : Value) (d : Delivery p handler)
      → raised_by m d ≡ none
      → Counted 1 d (try_from p handler (suc left) attempt t s m d).1
  fine-Counted minds left attempt t s m d fine =
      subst (λ r. Counted 1 d r.1) (sym (try_from-fine left attempt t s m d fine))
        (tried-Counted minds m 1 d (record (tried m d) { delivered = d.delivered + 1 })
          (record { counts = omega arith; letters = refl; attempts = refl }))

  try_from-Counted :
      Minds
      → (left attempt : ℕ) (t s : String) (m : Value) (d : Delivery p handler)
      → attempt + left ≡ d.bus.max_attempts
      → Counted 1 d (try_from p handler (suc left) attempt t s m d).1
  try_from-Counted minds zero attempt t s m d at = elim (Option-cases (raised_by m d)) [
    | inl fine ↦ fine-Counted minds zero attempt t s m d fine
    | inr (reason, bad) ↦
        let same = minds.same_attempts m d.state d.bus in
        subst (Counted 1 d)
          (sym (try_from-last attempt t s m d reason bad (ground (arith, at, same))))
          (tried-Counted minds m 1 d (give_up p handler (letter_of t s m reason) (tried m d)).1
            (give_up-Counted (letter_of t s m reason) (tried m d)))
  ]
  try_from-Counted minds (suc left) attempt t s m d at = elim (Option-cases (raised_by m d)) [
    | inl fine ↦ fine-Counted minds (suc left) attempt t s m d fine
    | inr (reason, bad) ↦
        let same = minds.same_attempts m d.state d.bus in
        subst (λ r. Counted 1 d r.1)
          (sym (try_from-again (suc left) attempt t s m d reason bad (ground (arith, at, same))))
          (tried-Counted minds m 1 d
            (try_from p handler (suc left) (attempt + 1) t s m (tried m d)).1
            (try_from-Counted minds left (attempt + 1) t s m (tried m d) (omega (arith, at, same))))
  ]

  deliver_one-Counted :
      Minds
      → (t s : String) (m : Value) (d : Delivery p handler) (k : ℕ) → d.bus.max_attempts ≡ suc k
      → Counted 1 d (deliver_one p handler t s m d).1
  unfolding deliver_one
  deliver_one-Counted minds t s m d k e =
      subst (λ n. Counted 1 d (try_from p handler n 1 t s m d).1) (sym e)
        (try_from-Counted minds k 1 t s m d (omega (arith, e)))

  deliver_all-Counted :
      Minds
      → (t s : String) (ms : List Value) (d : Delivery p handler) (k : ℕ)
      → d.bus.max_attempts ≡ suc k
      → (deliver_all p handler t s ms d).0 ≡ none
      → Counted (length ms) d (deliver_all p handler t s ms d).1
  unfolding deliver_all
  deliver_all-Counted minds t s [] d k e ok = record {
    counts = omega arith;
    letters = refl;
    attempts = refl;
  }
  deliver_all-Counted minds t s (m ∷ ms) d k e ok =
      let one = deliver_one-Counted minds t s m d k e in
      let next = (deliver_one p handler t s m d).1 in
      elim (Option-cases (deliver_one p handler t s m d).0) [
        | inr (refusal, raised) ↦ absurd (ground arith)
        | inl fine ↦
            let rest = deliver_all-Counted minds t s ms next k (one.attempts ∙ e) (ground arith) in
            let same : (deliver_all p handler t s (m ∷ ms) d).1
                ≡ (deliver_all p handler t s ms next).1 =
              rw (fine, deliver_all) refl in
            subst (λ r. Counted (length (m ∷ ms)) d r) (sym same)
              (record {
                counts = omega (arith, rest.counts, one.counts);
                letters = omega (arith, rest.letters, one.letters);
                attempts = rest.attempts ∙ one.attempts;
              })
      ]

  abbrev pub drained_bus : String → String → B p → B p
  drained_bus t s b = record b { queues = change t s (λ ms. []) b.queues }

  pub deliver_with-found :
      (t s : String) (h : H) (b : B p) (ms : List Value)
      → queue_of t s b.queues ≡ some ms
      → deliver_with p handler t s h b
        ≡ deliver_all p handler t s ms
            (record { delivered = 0; dead = 0; state = h; bus = drained_bus t s b })
  unfolding deliver_with drain
  deliver_with-found t s h b ms found = ground arith

  pub deliver_with-missing :
      (t s : String) (h : H) (b : B p)
      → queue_of t s b.queues ≡ none
      → (deliver_with p handler t s h b).0 ≢ none
  unfolding deliver_with drain
  deliver_with-missing t s h b missing = λ ok. ground arith

  -- Where `max_attempts` is at least one, and for a handler that may do anything on the bus but keep
  -- dead letters of its own or change the number of attempts: a `deliver_with` that does not raise
  -- accounts for every message that was pending. Each counts as delivered or as dead, and for each
  -- dead one a dead letter is kept.
  pub deliver_with-accounts :
      Minds
      → (t s : String) (h : H) (b : B p) (k : ℕ) → b.max_attempts ≡ suc k
      → (deliver_with p handler t s h b).0 ≡ none
      → let d = (deliver_with p handler t s h b).1 in
        (d.delivered + d.dead ≡ pending t s b)
        × (length d.bus.dead_letters ≡ length b.dead_letters + d.dead)
  unfolding pending
  deliver_with-accounts minds t s h b k e ok = elim (Option-cases (queue_of t s b.queues)) [
    | inl missing ↦ absurd (deliver_with-missing t s h b missing ok)
    | inr (ms, found) ↦
        let same = deliver_with-found t s h b ms found in
        let all = deliver_all-Counted minds t s ms _ k e (ap (λ r. r.0) (sym same) ∙ ok) in
        rw (same, found) (omega (arith, all.counts), omega (arith, all.letters))
  ]
