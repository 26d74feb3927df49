-- ===== src/Ws/Compiler/Tests.antt =====
-- The order of a small workflow, and two units that wait for each other.
use absolute_zero.Prelude.{String, ◌≡◌, ◌≢◌, refl, true, false, List, [], ◌∷◌, elem, length}
use absolute_zero.Prelude.Dict
use absolute_zero.Prelude.Dict.{Dict}
use absolute_zero.Value.{Value, str, list, nil, cons}
use absolute_zero.Ws.Compiler.{
  Edge, Remaining, is_free, spent, schedule, fine, rejected, bad_edge, duplicate_or_self_edge,
  cycle_detected, arrange,
}
use absolute_zero.Ws.Compiler.Order.{topological}
use absolute_zero.Ws.Compiler.Topological.{schedule-ends, schedule-topological}
use absolute_zero.Ws.Compiler.Cycles.{Blocked, schedule-cycle}

abbrev three : List String
three = "c" ∷ "a" ∷ "b" ∷ []

abbrev diamond : List Edge
diamond = ("b", "c") ∷ ("a", "c") ∷ []

abbrev producers_first : List String
producers_first = "a" ∷ "b" ∷ "c" ∷ []

schedule-topological_example :
    (topological diamond [] producers_first ≡ true)
    × ((u : String) → elem u producers_first ≡ elem u three)
    × (length producers_first ≡ length three)
unfolding schedule
schedule-topological_example =
    schedule-topological three diamond producers_first (("a" ∷ "b" ∷ []) ∷ ("c" ∷ []) ∷ []) refl

schedule-ends_example : schedule three diamond ≢ spent
schedule-ends_example = schedule-ends three diamond

abbrev knot : List Edge
knot = ("a", "b") ∷ ("b", "a") ∷ []

abbrev knotted : Remaining
knotted = ("a", "b" ∷ []) ∷ ("b", "a" ∷ []) ∷ []

schedule-cycle_example :
    (is_free (Dict.keys knotted) ≡ false) × Blocked knot (Dict.keys knotted) knotted
unfolding schedule
schedule-cycle_example = schedule-cycle ("c" ∷ "a" ∷ "b" ∷ []) knot knotted (refl, (refl, tt)) refl

abbrev nodes : Dict String
nodes = ("x", "a") ∷ ("y", "b") ∷ []

abbrev edge : String → String → Value
edge p c = list (cons (str p) (cons (str c) nil))

arrange_order :
    arrange ("a" ∷ "b" ∷ []) nodes (cons (edge "y" "x") nil)
    ≡ fine (("b", "a") ∷ [], ("b" ∷ "a" ∷ [], ("b" ∷ []) ∷ ("a" ∷ []) ∷ []))
unfolding arrange
arrange_order = refl

arrange_cycle :
    arrange ("a" ∷ "b" ∷ []) nodes (cons (edge "y" "x") (cons (edge "x" "y") nil))
    ≡ rejected cycle_detected
unfolding arrange
arrange_cycle = refl

arrange_self :
    arrange ("a" ∷ "b" ∷ []) nodes (cons (edge "y" "y") nil) ≡ rejected duplicate_or_self_edge
unfolding arrange
arrange_self = refl

arrange_unknown : arrange ("a" ∷ "b" ∷ []) nodes (cons (edge "y" "z") nil) ≡ rejected bad_edge
unfolding arrange
arrange_unknown = refl
