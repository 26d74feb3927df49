-- ===== src/Ws/Compiler/Topological.antt =====
-- src/ws/compiler.py: the canonical order is a topological order of all units.
use mathlib.Core.Path.{subst}
use absolute_zero.Prelude.{
  ℕ, zero, suc, ◌+◌, String, ◌≡◌, ◌≢◌, refl, sym, ap, ◌∙◌, inl, inr, true, List, [], ◌∷◌, ◌++◌,
  ◌||◌, elem, All, length, length-append, arith, str_eq, eq_iff, Bool-cases,
}
use absolute_zero.Prelude.Dict
use absolute_zero.Ws.Runtime.{predecessors, sorted}
use absolute_zero.Ws.Compiler.{
  Edge, Remaining, incoming, is_free, free, advance, Kahn, ordered, spent, kahn, schedule,
}
use absolute_zero.Ws.Compiler.Order.{
  topological, elem-sorted, length-sorted, length-advance, kahn-unspent, elem-without, elem-append,
  topological-append, topological-ready,
}

-- Every producer of a unit that is left is waited for, or done.
abbrev WaitsFor : List Edge → List String → String × List String → Type 0
WaitsFor es done (u, deps) =
    (p : String) → elem p (predecessors u es) ≡ true → (elem p deps || elem p done) ≡ true

abbrev Waits : List Edge → List String → Remaining → Type 0
Waits es done rem = All (WaitsFor es done) rem

incoming-Waits : (es : List Edge) (units : List String) → Waits es [] (incoming units es)
unfolding incoming
incoming-Waits es [] = tt
incoming-Waits es (u ∷ us) = (λ p h. ground arith, incoming-Waits es us)

free-ready :
    (es : List Edge) (done : List String) (rem : Remaining) (u p : String)
    → Waits es done rem
    → elem u (free rem) ≡ true
    → elem p (predecessors u es) ≡ true
    → elem p done ≡ true
unfolding free
free-ready es done [] u p waits here pred = absurd (cc here)
free-ready es done ((v, []) ∷ rem) u p waits here pred = elim (Bool-cases (str_eq u v)) [
  | inl same ↦ waits.0 p (subst (λ x. elem p (predecessors x es) ≡ true) ((eq_iff u v).0 same) pred)
  | inr other ↦ free-ready es done rem u p waits.1 (ground arith) pred
]
free-ready es done ((v, d ∷ ds) ∷ rem) u p waits here pred =
    free-ready es done rem u p waits.1 here pred

advance-Waits :
    (es : List Edge) (done frontier : List String) (rem : Remaining)
    → Waits es done rem
    → Waits es (done ++ frontier) (advance frontier rem)
unfolding advance
advance-Waits es done frontier [] waits = tt
advance-Waits es done frontier ((u, []) ∷ rem) waits = advance-Waits es done frontier rem waits.1
advance-Waits es done frontier ((u, d ∷ ds) ∷ rem) waits = (
  λ p pred.
      let before = waits.0 p pred in
      ground (arith, elem-without p frontier (d ∷ ds), elem-append p done frontier, before),
  advance-Waits es done frontier rem waits.1,
)

-- The units that are left are those that are free and those that go on.
pub elem-advance :
    (u : String) (frontier : List String) (rem : Remaining)
    → elem u (Dict.keys rem) ≡ (elem u (free rem) || elem u (Dict.keys (advance frontier rem)))
unfolding free advance Dict.keys
elem-advance u frontier [] = refl
elem-advance u frontier ((v, []) ∷ rem) = ground (arith, elem-advance u frontier rem)
elem-advance u frontier ((v, d ∷ ds) ∷ rem) = ground (arith, elem-advance u frontier rem)

-- An order of the units `done` and of those that are left.
pub record IsOrder (es : List Edge) (done : List String) (rem : Remaining) (out : List String)
    : Type 0 where
  pub before : topological es [] out ≡ true
  pub complete : (u : String) → elem u out ≡ (elem u done || elem u (Dict.keys rem))
  pub each_once : length out ≡ length done + length rem

round-IsOrder :
    (es : List Edge) (done : List String) (rem : Remaining) (out : List String)
    → let frontier = sorted (free rem) in
      IsOrder es (done ++ frontier) (advance frontier rem) out → IsOrder es done rem out
round-IsOrder es done rem out next =
    let frontier = sorted (free rem) in
    record {
      before = next.before;
      complete = λ u.
          next.complete u
          ∙ ground (
            arith,
            elem-append u done frontier,
            elem-sorted u (free rem),
            elem-advance u frontier rem,
          );
      each_once = omega (
        arith,
        next.each_once,
        length-append done frontier,
        length-sorted (free rem),
        length-advance frontier rem,
      );
    }

none_left :
    (es : List Edge) (done : List String) → topological es [] done ≡ true → IsOrder es done [] done
unfolding Dict.keys
none_left es done top = record {
  before = top;
  complete = λ u. ground arith;
  each_once = omega arith;
}

order_of : Kahn → List String → List String
order_of (ordered out ls) d = out
order_of _ d = d

ordered-inj :
    (xs ys : List String) (ls ms : List (List String)) → ordered xs ls ≡ ordered ys ms → xs ≡ ys
unfolding order_of
ordered-inj xs ys ls ms h = ap (λ k. order_of k xs) h

kahn-IsOrder :
    (es : List Edge) (fuel : ℕ) (rem : Remaining) (done : List String) (levels : List (List String))
    (out : List String) (ls : List (List String))
    → Waits es done rem
    → topological es [] done ≡ true
    → kahn fuel rem done levels ≡ ordered out ls
    → IsOrder es done rem out
unfolding kahn
kahn-IsOrder es zero rem done levels out ls waits top h = absurd (cc h)
kahn-IsOrder es (suc fuel) [] done levels out ls waits top h =
    subst (IsOrder es done []) (ordered-inj done out levels ls h) (none_left es done top)
kahn-IsOrder es (suc fuel) (r ∷ rem) done levels out ls waits top h =
    elim (Bool-cases (is_free (sorted (free (r ∷ rem))))) [
      | inl none' ↦ absurd (ground arith)
      | inr some' ↦
          let frontier = sorted (free (r ∷ rem)) in
          let goes : kahn (suc fuel) (r ∷ rem) done levels
              ≡ kahn fuel (advance frontier (r ∷ rem)) (done ++ frontier)
                  (levels ++ frontier ∷ []) =
            rw (some', kahn) refl in
          let ready = topological-ready es done frontier (λ u p e f.
            free-ready es done (r ∷ rem) u p waits (sym (elem-sorted u (free (r ∷ rem))) ∙ e) f) in
          round-IsOrder es done (r ∷ rem) out (
            kahn-IsOrder es fuel (advance frontier (r ∷ rem)) (done ++ frontier)
              (levels ++ frontier ∷ []) out ls (advance-Waits es done frontier (r ∷ rem) waits)
              (topological-append es [] done frontier ∙ rw (top, ready) refl) (sym goes ∙ h))
    ]

pub keys-incoming : (units : List String) (es : List Edge) → Dict.keys (incoming units es) ≡ units
unfolding incoming Dict.keys
keys-incoming [] es = refl
keys-incoming (u ∷ us) es = ap (λ xs. u ∷ xs) (keys-incoming us es)

length-incoming : (units : List String) (es : List Edge) → length (incoming units es) ≡ length units
unfolding incoming
length-incoming [] es = refl
length-incoming (u ∷ us) es = ap suc (length-incoming us es)

-- The loop of Kahn always ends, with an order or with units that wait for each other: one round
-- for each unit, and one more, are enough.
pub schedule-ends : (units : List String) (es : List Edge) → schedule units es ≢ spent
unfolding schedule
schedule-ends units es =
    kahn-unspent (suc (length units)) (incoming units es) [] []
      (omega (arith, length-incoming units es))

-- The canonical order, if there is one, has every unit and no other, as many as there are, and
-- every producer of an edge stands before its consumer.
pub schedule-topological :
    (units : List String) (es : List Edge) (out : List String) (ls : List (List String))
    → schedule units es ≡ ordered out ls
    → (topological es [] out ≡ true)
      × ((u : String) → elem u out ≡ elem u units)
      × (length out ≡ length units)
unfolding schedule topological
schedule-topological units es out ls h =
    let order =
      kahn-IsOrder es (suc (length units)) (incoming units es) [] [] out ls
        (incoming-Waits es units) refl h in
    (
      order.before,
      λ u. order.complete u ∙ ap (elem u) (keys-incoming units es),
      omega (arith, order.each_once, length-incoming units es),
    )
