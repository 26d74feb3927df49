-- ===== src/Ws/Compiler.antt =====
-- src/ws/compiler.py: the edges and the canonical order of a workflow.
pub mod Order
pub mod Topological
pub mod Cycles
pub mod Tests
use Prim.Native.String.{compare}
use Prim.Native.Nat.{Ordering}
use absolute_zero.Prelude.{
  ℕ, zero, suc, String, Bool, true, false, not, Option, none, some, List, [], ◌∷◌, ◌++◌, map, ◌&&◌,
  ◌||◌, elem, length, is_some, str_eq, if◌then◌else◌,
}
use absolute_zero.Prelude.Dict
use absolute_zero.Prelude.Dict.{Dict}
use absolute_zero.Value.{Value, null, bool, int, str, list, dict, Items, nil, cons}
use absolute_zero.Ws.Runtime.{predecessors, sorted}

abbrev pub Edge : Type 0
Edge = String × String

-- Why a graph is rejected; `type_error` is an edge with an end that is not hashable.
pub data Rejected : Type 0 where
  bad_edge : Rejected
  duplicate_or_self_edge : Rejected
  type_error : Rejected
  cycle_detected : Rejected

pub data Checked (A : Type 0) : Type 0 where
  fine : A → Checked A
  rejected : Rejected → Checked A

-- `pair in seen_edges`
abbrev pub has_edge : Edge → List Edge → Bool
has_edge e [] = false
has_edge e (f ∷ fs) = (str_eq e.0 f.0 && str_eq e.1 f.1) || has_edge e fs

-- The unit of an end of an edge.
unfoldable pub unit_of : Dict String → Value → Checked String
unfolding Dict.get
unit_of by_node (str n) = elim (Dict.get n by_node) [ none ↦ rejected bad_edge | some u ↦ fine u ]
unit_of by_node (list xs) = rejected type_error
unit_of by_node (dict d) = rejected type_error
unit_of by_node v = rejected bad_edge

abbrev both : Checked String → Checked String → Checked Edge
both (rejected r) c = rejected r
both (fine p) (rejected r) = rejected r
both (fine p) (fine c) = fine (p, c)

-- `edge`, of two node ids, as the pair of the units
unfoldable pub pair_of : Dict String → Value → Checked Edge
unfolding unit_of
pair_of by_node (list (cons p (cons c nil))) = both (unit_of by_node p) (unit_of by_node c)
pair_of by_node v = rejected bad_edge

-- The loop over the edges, with those that are seen.
unfoldable pub collect : Dict String → Items → List Edge → Checked (List Edge)
unfolding pair_of
collect by_node nil seen = fine seen
collect by_node (cons v more) seen = elim (pair_of by_node v) [
  | rejected r ↦ rejected r
  | fine e ↦
      let rest = collect by_node more (seen ++ e ∷ []) in
      if has_edge e seen || str_eq e.0 e.1 then rejected duplicate_or_self_edge else rest
]

-- `a <= b` of two pairs of texts
abbrev edge_le : Edge → Edge → Bool
edge_le (p, c) (q, d) = elim (compare p q) [
  | Ordering.lt ↦ true
  | Ordering.gt ↦ false
  | Ordering.eq ↦ elim (compare c d) [ Ordering.gt ↦ false | _ ↦ true ]
]

insert_edge : Edge → List Edge → List Edge
insert_edge e [] = e ∷ []
insert_edge e (f ∷ fs) = let rest = insert_edge e fs in if edge_le e f then e ∷ f ∷ fs else f ∷ rest

-- `unit_edges.sort()`
unfoldable pub sort_edges : List Edge → List Edge
unfolding insert_edge
sort_edges [] = []
sort_edges (e ∷ es) = insert_edge e (sort_edges es)

-- The units that are left, each with the producers that it waits for.
abbrev pub Remaining : Type 0
Remaining = Dict (List String)

-- `incoming`
unfoldable pub incoming : List String → List Edge → Remaining
unfolding predecessors
incoming units es = map (λ u. (u, predecessors u es)) units

abbrev pub is_free : List String → Bool
is_free [] = true
is_free (d ∷ ds) = false

-- `uid for uid, deps in remaining.items() if not deps`
unfoldable pub free : Remaining → List String
free [] = []
free ((u, deps) ∷ rem) = let rest = free rem in if is_free deps then u ∷ rest else rest

-- `deps.difference_update(frontier)`
unfoldable pub without : List String → List String → List String
without frontier [] = []
without frontier (d ∷ ds) =
    let rest = without frontier ds in if elem d frontier then rest else d ∷ rest

-- The round on the dict: the units that waited for nothing are deleted, and the others wait for
-- the frontier no more.
unfoldable pub advance : List String → Remaining → Remaining
unfolding without
advance frontier [] = []
advance frontier ((u, deps) ∷ rem) =
    let rest = advance frontier rem in
    if is_free deps then rest else (u, without frontier deps) ∷ rest

-- How the loop ends; `spent` is the end of the fuel.
pub data Kahn : Type 0 where
  ordered : List String → List (List String) → Kahn
  cyclic : Remaining → Kahn
  spent : Kahn

-- The loop of Kahn, with the order and the levels so far.
unfoldable pub kahn : ℕ → Remaining → List String → List (List String) → Kahn
unfolding sorted free advance
kahn zero rem order levels = spent
kahn (suc fuel) [] order levels = ordered order levels
kahn (suc fuel) (r ∷ rem) order levels =
    let frontier = sorted (free (r ∷ rem)) in
    let rest =
      kahn fuel (advance frontier (r ∷ rem)) (order ++ frontier) (levels ++ frontier ∷ []) in
    if is_free frontier then cyclic (r ∷ rem) else rest

-- One round for each unit, and one to see that none is left.
unfoldable pub schedule : List String → List Edge → Kahn
unfolding incoming kahn
schedule units es = kahn (suc (length units)) (incoming units es) [] []

-- The edges and the order of a graph, from the units in their order and `by_node`.
abbrev kahn_result : List Edge → Kahn → Checked (List Edge × (List String × List (List String)))
kahn_result es (ordered order levels) = fine (es, (order, levels))
kahn_result es (cyclic rem) = rejected cycle_detected
kahn_result es spent = rejected cycle_detected

unfoldable pub arrange :
    List String → Dict String → Items → Checked (List Edge × (List String × List (List String)))
unfolding collect sort_edges schedule
arrange units by_node edges = elim (collect by_node edges []) [
  | rejected r ↦ rejected r
  | fine es ↦ kahn_result (sort_edges es) (schedule units (sort_edges es))
]
