-- ===== src/Communication/Bus/Queues.antt =====
-- The queues of the bus by topic and subscriber: what a change, a publication and a new queue do.
use absolute_zero.Prelude.{
  String, ◌≡◌, refl, Bool, true, false, not, ◌&&◌, Option, none, some, List, [], ◌∷◌, ◌++◌, elem,
  arith, str_eq, eq_iff, if◌then◌else◌,
}
use absolute_zero.Value.{Value}
use absolute_zero.Communication.Bus.{Queues, queue_of, change, enqueue}

-- A queue that may not be there.
abbrev pub on_queue : (List Value → List Value) → Option (List Value) → Option (List Value)
on_queue f none = none
on_queue f (some ms) = some (f ms)

pub queue_of-change :
    (t s u r : String) (f : List Value → List Value) (qs : Queues)
    → queue_of t s (change u r f qs)
      ≡ (if str_eq u t && str_eq r s then on_queue f (queue_of t s qs) else queue_of t s qs)
unfolding queue_of change
queue_of-change t s u r f [] = ground arith
queue_of-change t s u r f ((v, w, ms) ∷ qs) = ground (
  arith,
  queue_of-change t s u r f qs,
  eq_iff v t,
  eq_iff w s,
  eq_iff u t,
  eq_iff r s,
  eq_iff v u,
  eq_iff w r,
)

abbrev pub distinct : List String → Bool
distinct [] = true
distinct (x ∷ xs) = not (elem x xs) && distinct xs

pub queue_of-enqueue :
    (t s u : String) (subs : List String) (m : Value) (qs : Queues)
    → distinct subs ≡ true
    → queue_of t s (enqueue u subs m qs) ≡ (
        if str_eq u t && elem s subs
        then on_queue (λ ms. ms ++ m ∷ []) (queue_of t s qs)
        else queue_of t s qs)
unfolding enqueue
queue_of-enqueue t s u [] m qs h = ground arith
queue_of-enqueue t s u (r ∷ subs) m qs h = ground (
  arith,
  queue_of-change t s u r (λ ms. ms ++ m ∷ []) qs,
  queue_of-enqueue t s u subs m (change u r (λ ms. ms ++ m ∷ []) qs),
  eq_iff r s,
  eq_iff s r,
)

pub queue_of-append :
    (t s u r : String) (qs : Queues)
    → queue_of t s (qs ++ (u, r, []) ∷ []) ≡ elim (queue_of t s qs) [
      | some ms ↦ some ms
      | none ↦ if str_eq u t && str_eq r s then some [] else none
    ]
unfolding queue_of
queue_of-append t s u r [] = ground arith
queue_of-append t s u r ((v, w, ms) ∷ qs) = ground (arith, queue_of-append t s u r qs)

pub elem-snoc :
    (x y : String) (xs : List String)
    → elem x (xs ++ y ∷ []) ≡ (if elem x xs then true else str_eq x y)
elem-snoc x y [] = ground arith
elem-snoc x y (z ∷ xs) = ground (arith, elem-snoc x y xs)

pub distinct-snoc :
    (x : String) (xs : List String)
    → distinct xs ≡ true
    → elem x xs ≡ false
    → distinct (xs ++ x ∷ []) ≡ true
distinct-snoc x [] h e = refl
distinct-snoc x (y ∷ xs) h e =
    ground (arith, elem-snoc y x xs, distinct-snoc x xs, eq_iff x y, eq_iff y x)
