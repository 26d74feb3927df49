-- ===== src/Ws/Compiler/Cycles.antt =====
-- src/ws/compiler.py: the graphs that are rejected for a cycle.
use mathlib.Core.Path.{subst}
use absolute_zero.Prelude.{
  ℕ, zero, suc, String, ◌≡◌, ◌≢◌, refl, sym, ap, ◌∙◌, inl, inr, true, false, List, [], ◌∷◌, ◌++◌,
  elem, All, length, arith, str_eq, eq_iff, eq_refl, Bool-cases,
}
use absolute_zero.Prelude.Dict
use absolute_zero.Ws.Runtime.{predecessors, sorted}
use absolute_zero.Ws.Compiler.{
  Edge, Remaining, incoming, is_free, free, advance, Kahn, ordered, cyclic, spent, kahn, schedule,
}
use absolute_zero.Ws.Compiler.Order.{elem-sorted, length-sorted, elem-without}
use absolute_zero.Ws.Compiler.Topological.{elem-advance, keys-incoming}

-- What a unit waits for are producers of it that are left.
abbrev WithinOf : List Edge → List String → String × List String → Type 0
WithinOf es left (u, deps) =
    (p : String) → elem p deps ≡ true → (elem p (predecessors u es) ≡ true) × (elem p left ≡ true)

abbrev Within : List Edge → List String → Remaining → Type 0
Within es left rem = All (WithinOf es left) rem

predecessors-elem :
    (fs : List Edge) (units : List String) (u p : String)
    → All (λ e. elem e.0 units ≡ true) fs
    → elem p (predecessors u fs) ≡ true
    → elem p units ≡ true
unfolding predecessors
predecessors-elem [] units u p ends h = absurd (cc h)
predecessors-elem ((q, c) ∷ fs) units u p ends h = elim (Bool-cases (str_eq p q)) [
  | inl same ↦ subst (λ x. elem x units ≡ true) (sym ((eq_iff p q).0 same)) ends.0
  | inr other ↦ predecessors-elem fs units u p ends.1 (ground arith)
]

incoming-Within :
    (es : List Edge) (units us : List String)
    → All (λ e. elem e.0 units ≡ true) es
    → Within es units (incoming us es)
unfolding incoming
incoming-Within es units [] ends = tt
incoming-Within es units (u ∷ us) ends =
    (λ p h. (h, predecessors-elem es units u p ends h), incoming-Within es units us ends)

advance-Within :
    (es : List Edge) (left frontier left' : List String) (rem : Remaining)
    → ((p : String) → elem p left ≡ true → elem p frontier ≡ false → elem p left' ≡ true)
    → Within es left rem
    → Within es left' (advance frontier rem)
unfolding advance
advance-Within es left frontier left' [] stay h = tt
advance-Within es left frontier left' ((u, []) ∷ rem) stay h =
    advance-Within es left frontier left' rem stay h.1
advance-Within es left frontier left' ((u, d ∷ ds) ∷ rem) stay h = (
  λ p waits.
      let (pred, here) = h.0 p (ground (arith, elem-without p frontier (d ∷ ds))) in
      (pred, stay p here (ground (arith, elem-without p frontier (d ∷ ds)))),
  advance-Within es left frontier left' rem stay h.1,
)

-- Every unit of `rem` has a producer that is left.
abbrev pub Blocked : List Edge → List String → Remaining → Type 0
Blocked es left rem =
    All (λ e. (p : String) × (elem p (predecessors e.0 es) ≡ true) × (elem p left ≡ true)) rem

free-Blocked :
    (es : List Edge) (left : List String) (rem : Remaining)
    → Within es left rem
    → is_free (free rem) ≡ true
    → Blocked es left rem
unfolding free
free-Blocked es left [] h none' = tt
free-Blocked es left ((u, []) ∷ rem) h none' = absurd (cc none')
free-Blocked es left ((u, d ∷ ds) ∷ rem) h none' =
    let (pred, here) = h.0 d (ground (arith, eq_refl d)) in
    ((d, pred, here), free-Blocked es left rem h.1 none')

is_free-sorted : (xs : List String) → is_free (sorted xs) ≡ true → is_free xs ≡ true
is_free-sorted [] h = refl
is_free-sorted (x ∷ xs) h = absurd (empty (sorted (x ∷ xs)) h (length-sorted (x ∷ xs)))
  where
    empty : (ys : List String) → is_free ys ≡ true → length ys ≢ suc (length xs)
    empty [] h' e = omega (arith, e)
    empty (y ∷ ys) h' e = cc h'

-- The units that are stuck when the loop gives up.
pub record IsStuck (es : List Edge) (rem : Remaining) : Type 0 where
  pub some_left : is_free (Dict.keys rem) ≡ false
  pub blocked : Blocked es (Dict.keys rem) rem

cyclic-inj : (a b : Remaining) → cyclic a ≡ cyclic b → a ≡ b
cyclic-inj a b h = ap (left_of a) h
  where
    left_of : Remaining → Kahn → Remaining
    left_of d (cyclic r) = r
    left_of d (ordered o l) = d
    left_of d spent = d

some_key : (q : String × List String) (more : Remaining) → is_free (Dict.keys (q ∷ more)) ≡ false
unfolding Dict.keys
some_key q more = refl

kahn-IsStuck :
    (es : List Edge) (fuel : ℕ) (rem : Remaining) (done : List String) (levels : List (List String))
    (stuck : Remaining)
    → Within es (Dict.keys rem) rem
    → kahn fuel rem done levels ≡ cyclic stuck
    → IsStuck es stuck
unfolding kahn
kahn-IsStuck es zero rem done levels stuck within h = absurd (cc h)
kahn-IsStuck es (suc fuel) [] done levels stuck within h = absurd (cc h)
kahn-IsStuck es (suc fuel) (r ∷ rem) done levels stuck within h =
    let frontier = sorted (free (r ∷ rem)) in
    elim (Bool-cases (is_free (sorted (free (r ∷ rem))))) [
      | inl none' ↦
          let stops : kahn (suc fuel) (r ∷ rem) done levels ≡ cyclic (r ∷ rem) =
            rw (none', kahn) refl in
          subst (IsStuck es) (cyclic-inj (r ∷ rem) stuck (sym stops ∙ h))
            (stop r rem within (is_free-sorted (free (r ∷ rem)) none'))
      | inr some' ↦
          let goes : kahn (suc fuel) (r ∷ rem) done levels
              ≡ kahn fuel (advance frontier (r ∷ rem)) (done ++ frontier)
                  (levels ++ frontier ∷ []) =
            rw (some', kahn) refl in
          kahn-IsStuck es fuel (advance frontier (r ∷ rem)) (done ++ frontier)
            (levels ++ frontier ∷ []) stuck
            (advance-Within es (Dict.keys (r ∷ rem)) frontier
              (Dict.keys (advance frontier (r ∷ rem))) (r ∷ rem)
              (λ p here gone.
                ground (arith, elem-advance p frontier (r ∷ rem), elem-sorted p (free (r ∷ rem))))
              within)
            (sym goes ∙ h)
    ]
  where
    stop :
        (q : String × List String) (more : Remaining)
        → Within es (Dict.keys (q ∷ more)) (q ∷ more)
        → is_free (free (q ∷ more)) ≡ true
        → IsStuck es (q ∷ more)
    stop q more w none' = record {
      some_left = some_key q more;
      blocked = free-Blocked es (Dict.keys (q ∷ more)) (q ∷ more) w none';
    }

-- A workflow is rejected for a cycle only if units are left, each of which has a producer by an
-- edge that is left too, when the producer of each edge is a unit.
pub schedule-cycle :
    (units : List String) (es : List Edge) (stuck : Remaining)
    → All (λ e. elem e.0 units ≡ true) es
    → schedule units es ≡ cyclic stuck
    → (is_free (Dict.keys stuck) ≡ false) × Blocked es (Dict.keys stuck) stuck
unfolding schedule
schedule-cycle units es stuck ends h =
    let start =
      subst (λ ks. Within es ks (incoming units es)) (sym (keys-incoming units es))
        (incoming-Within es units units ends) in
    let found = kahn-IsStuck es (suc (length units)) (incoming units es) [] [] stuck start h in
    (found.some_left, found.blocked)
