-- ===== src/Ws/Compiler/Order.antt =====
-- src/ws/compiler.py: what the loop of Kahn makes of the units and the edges.
use Prim.Native.String.{compare}
use Prim.Native.Nat.{Ordering}
use mathlib.Core.Path.{subst}
use absolute_zero.Prelude.{
  ℕ, zero, suc, ◌+◌, ◌<◌, String, ◌≡◌, ◌≢◌, ◌⊎◌, refl, sym, ap, ◌∙◌, inl, inr, Bool, true, false,
  not, List, [], ◌∷◌, ◌++◌, ◌&&◌, ◌||◌, elem, elem-snoc, length, append-nil, append_assoc, arith,
  str_eq, eq_iff, eq_refl, Bool-cases,
}
use absolute_zero.Ws.Runtime.{predecessors, sorted, insert}
use absolute_zero.Ws.Compiler.{Edge, Remaining, is_free, free, without, advance, spent, kahn}

-- Every producer of every unit of an order stands before it, after the units `seen`.
abbrev pub all_seen : List String → List String → Bool
all_seen seen [] = true
all_seen seen (p ∷ ps) = elem p seen && all_seen seen ps

unfoldable pub topological : List Edge → List String → List String → Bool
unfolding predecessors
topological es seen [] = true
topological es seen (u ∷ us) =
    all_seen seen (predecessors u es) && topological es (seen ++ u ∷ []) us

Ordering-cases : (o : Ordering) → (o ≡ Ordering.gt) ⊎ ((o ≡ Ordering.lt) ⊎ (o ≡ Ordering.eq))
Ordering-cases Ordering.gt = inl refl
Ordering-cases Ordering.lt = inr (inl refl)
Ordering-cases Ordering.eq = inr (inr refl)

elem-insert : (u v : String) (xs : List String) → elem u (insert v xs) ≡ (str_eq u v || elem u xs)
unfolding insert
elem-insert u v [] = refl
elem-insert u v (x ∷ xs) = elim (Ordering-cases (compare v x)) [
  | inl more ↦ rw (more, insert) (ground (arith, elem-insert u v xs))
  | inr (inl less) ↦ rw (less, insert) refl
  | inr (inr same) ↦ rw (same, insert) refl
]

length-insert : (v : String) (xs : List String) → length (insert v xs) ≡ suc (length xs)
unfolding insert
length-insert v [] = refl
length-insert v (x ∷ xs) = elim (Ordering-cases (compare v x)) [
  | inl more ↦ rw (more, insert) (ap suc (length-insert v xs))
  | inr (inl less) ↦ rw (less, insert) refl
  | inr (inr same) ↦ rw (same, insert) refl
]

pub elem-sorted : (u : String) (xs : List String) → elem u (sorted xs) ≡ elem u xs
unfolding sorted
elem-sorted u [] = refl
elem-sorted u (x ∷ xs) = elem-insert u x (sorted xs) ∙ ap (λ b. str_eq u x || b) (elem-sorted u xs)

pub length-sorted : (xs : List String) → length (sorted xs) ≡ length xs
unfolding sorted
length-sorted [] = refl
length-sorted (x ∷ xs) = length-insert x (sorted xs) ∙ ap suc (length-sorted xs)

-- Every unit that is left waits for nothing, or goes on.
pub length-advance :
    (frontier : List String) (rem : Remaining)
    → length (free rem) + length (advance frontier rem) ≡ length rem
unfolding free advance
length-advance frontier [] = refl
length-advance frontier ((u, deps) ∷ rem) = elim (Bool-cases (is_free deps)) [
  | inl now ↦ rw (now, free, advance) (omega (arith, length-advance frontier rem))
  | inr later ↦ rw (later, free, advance) (omega (arith, length-advance frontier rem))
]

frontier_some : (xs : List String) → is_free (sorted xs) ≡ false → 0 < length xs
frontier_some xs some' = omega (arith, length-sorted xs, not_free (sorted xs) some')
  where
    not_free : (ys : List String) → is_free ys ≡ false → 0 < length ys
    not_free [] h = absurd (cc h)
    not_free (y ∷ ys) h = omega arith

-- The loop does not come to the end of its fuel.
pub kahn-unspent :
    (fuel : ℕ) (rem : Remaining) (order : List String) (levels : List (List String))
    → length rem < fuel
    → kahn fuel rem order levels ≢ spent
unfolding kahn
kahn-unspent zero rem order levels enough h = absurd (omega arith)
kahn-unspent (suc fuel) [] order levels enough h = cc h
kahn-unspent (suc fuel) (r ∷ rem) order levels enough h =
    let frontier = sorted (free (r ∷ rem)) in
    elim (Bool-cases (is_free frontier)) [
      | inl none' ↦ absurd (ground arith)
      | inr some' ↦
          kahn-unspent fuel (advance frontier (r ∷ rem)) (order ++ frontier)
            (levels ++ frontier ∷ [])
            (omega (arith, length-advance frontier (r ∷ rem), frontier_some (free (r ∷ rem)) some'))
            (sym (goes frontier some') ∙ h)
    ]
  where
    goes :
        (frontier : List String)
        → is_free (sorted (free (r ∷ rem))) ≡ false
        → kahn (suc fuel) (r ∷ rem) order levels
          ≡ kahn fuel
              (advance (sorted (free (r ∷ rem))) (r ∷ rem))
              (order ++ sorted (free (r ∷ rem)))
              (levels ++ sorted (free (r ∷ rem)) ∷ [])
    goes frontier some' = rw (some', kahn) refl

pub elem-without :
    (p : String) (f ds : List String) → elem p (without f ds) ≡ (elem p ds && not (elem p f))
unfolding without
elem-without p f [] = refl
elem-without p f (d ∷ ds) = elim (Bool-cases (str_eq p d)) [
  | inl same ↦
      subst (λ x. elem p (without f (x ∷ ds)) ≡ (elem p (x ∷ ds) && not (elem p f)))
        ((eq_iff p d).0 same) (ground (arith, elem-without p f ds, eq_refl p))
  | inr other ↦ ground (arith, elem-without p f ds)
]

pub elem-append : (p : String) (xs ys : List String) → elem p (xs ++ ys) ≡ (elem p xs || elem p ys)
elem-append p [] ys = refl
elem-append p (x ∷ xs) ys = ground (arith, elem-append p xs ys)

pub topological-append :
    (es : List Edge) (seen xs ys : List String)
    → topological es seen (xs ++ ys) ≡ (topological es seen xs && topological es (seen ++ xs) ys)
unfolding topological
topological-append es seen [] ys = ap (λ s. topological es s ys) (sym (append-nil seen))
topological-append es seen (x ∷ xs) ys =
    let rest = topological-append es (seen ++ x ∷ []) xs ys in
    let same = ap (λ s. topological es s ys) (append_assoc seen (x ∷ []) xs) in
    ground (arith, rest, same)

all_seen_intro :
    (seen ps : List String)
    → ((p : String) → elem p ps ≡ true → elem p seen ≡ true)
    → all_seen seen ps ≡ true
all_seen_intro seen [] h = refl
all_seen_intro seen (p ∷ ps) h =
    let first = h p (ground (arith, eq_refl p)) in
    let rest = all_seen_intro seen ps (λ q e. h q (ground arith)) in ground arith

pub topological-ready :
    (es : List Edge) (seen xs : List String)
    → ((u p : String) → elem u xs ≡ true → elem p (predecessors u es) ≡ true → elem p seen ≡ true)
    → topological es seen xs ≡ true
unfolding topological
topological-ready es seen [] h = refl
topological-ready es seen (x ∷ xs) h =
    let first =
      all_seen_intro seen (predecessors x es) (λ p e. h x p (ground (arith, eq_refl x)) e) in
    let rest =
      topological-ready es (seen ++ x ∷ []) xs
        (λ u p e f. ground (arith, elem-snoc p x seen, h u p (ground arith) f)) in
    ground arith
