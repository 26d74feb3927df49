-- ===== src/Ws/Runtime/Ordered.antt =====
-- The invariant of the order of execution, and what the changes of a run do to it.
use absolute_zero.Prelude.{
  String, ◌≡◌, ◌∙◌, refl, sym, ap, ◌⊎◌, inl, inr, Bool, true, false, Option, some, List, [], ◌∷◌,
  ◌++◌, ◌||◌, elem, all_of, map, arith, str_eq, eq_iff, Bool-cases,
}
use absolute_zero.Prelude.Dict
use absolute_zero.Prelude.Dict.{Dict, get-put}
use absolute_zero.Ws.Runtime.{
  UnitState, pending, executing, succeeded, failed, Workflow, UnitSpec, Progress, add, discard,
  predecessors, eq_state,
}

-- A unit that execution has got.
abbrev pub is_started : Option UnitState → Bool
is_started (some executing) = true
is_started (some succeeded) = true
is_started (some failed) = true
is_started _ = false

-- All the predecessors of the unit have succeeded.
abbrev pub preds_done : Workflow → Progress → String → Bool
preds_done wf p u =
    all_of (λ q. eq_state (Dict.get q p.unit_state) succeeded) (predecessors u wf.edges)

-- Every unit that execution has got, or that awaits its verdict, has its predecessors done.
abbrev pub IsOrdered : Workflow → Progress → Type 0
IsOrdered wf p =
    (u : String)
    → (is_started (Dict.get u p.unit_state) || elem u p.exec_ok) ≡ true
    → preds_done wf p u ≡ true

pub fresh-idle :
    (units : Dict UnitSpec) (u : String)
    → is_started (Dict.get u (map (λ e. (e.0, pending)) units)) ≡ false
unfolding Dict.get
fresh-idle [] u = refl
fresh-idle ((v, spec) ∷ units) u = ground (arith, fresh-idle units u)

all_of_mono :
    (f g : String → Bool) (us : List String)
    → ((u : String) → f u ≡ true → g u ≡ true)
    → all_of f us ≡ true
    → all_of g us ≡ true
all_of_mono f g [] le h = h
all_of_mono f g (u ∷ us) le h = ground (arith, le u, all_of_mono f g us le)

elem-add : (u v : String) (us : List String) → elem v (add u us) ≡ (str_eq v u || elem v us)
unfolding add
elem-add u v us = elim (Bool-cases (elem u us)) [
  | inl old ↦ ground (arith, eq_iff v u)
  | inr new ↦ ground (arith, elem-snoc v u us)
]
  where
    elem-snoc :
        (x y : String) (xs : List String) → elem x (xs ++ y ∷ []) ≡ (str_eq x y || elem x xs)
    elem-snoc x y [] = ground arith
    elem-snoc x y (z ∷ xs) = ground (arith, elem-snoc x y xs)

elem-discard : (u v : String) (us : List String) → elem v (discard u us) ≡ true → elem v us ≡ true
unfolding discard
elem-discard u v [] h = h
elem-discard u v (w ∷ us) h = ground (arith, elem-discard u v us)

module _ (wf : Workflow) (p : Progress) (ordered : IsOrdered wf p) where
  -- A unit that has not succeeded may change its state; to a started one if its predecessors are done.
  pub put-IsOrdered :
      (u : String) (s : UnitState)
      → eq_state (Dict.get u p.unit_state) succeeded ≡ false
      → (is_started (some s) ≡ true → preds_done wf p u ≡ true)
      → IsOrdered wf (record p { unit_state = Dict.put u s p.unit_state })
  put-IsOrdered u s open' fit v h =
      all_of_mono (λ q. eq_state (Dict.get q p.unit_state) succeeded)
        (λ q. eq_state (Dict.get q (Dict.put u s p.unit_state)) succeeded) (predecessors v wf.edges)
        (λ q e. stays q e) (before (Bool-cases (str_eq u v)))
    where
      stays :
          (q : String)
          → eq_state (Dict.get q p.unit_state) succeeded ≡ true
          → eq_state (Dict.get q (Dict.put u s p.unit_state)) succeeded ≡ true
      stays q e = elim (Bool-cases (str_eq u q)) [
        | inl own ↦ absurd (ground (arith, eq_iff u q))
        | inr other ↦ ground (arith, get-put u q s p.unit_state)
      ]

      before : (str_eq u v ≡ true) ⊎ (str_eq u v ≡ false) → preds_done wf p v ≡ true
      before (inr other) = ordered v (ground (arith, get-put u v s p.unit_state))
      before (inl own) = elim (Bool-cases (is_started (some s))) [
        | inl started ↦ ap (preds_done wf p) (sym ((eq_iff u v).0 own)) ∙ fit started
        | inr idle ↦ ordered v (ground (arith, get-put u v s p.unit_state))
      ]

  pub add-IsOrdered :
      (u : String)
      → preds_done wf p u ≡ true
      → IsOrdered wf (record p { exec_ok = add u p.exec_ok })
  add-IsOrdered u fit v h = elim (Bool-cases (str_eq v u)) [
    | inl own ↦ ap (preds_done wf p) ((eq_iff v u).0 own) ∙ fit
    | inr other ↦ ordered v (ground (arith, elem-add u v p.exec_ok))
  ]

  pub discard-IsOrdered : (u : String) → IsOrdered wf (record p { exec_ok = discard u p.exec_ok })
  discard-IsOrdered u v h = ordered v (ground (arith, elem-discard u v p.exec_ok))
