-- ===== src/Rsm/Registry.antt =====
-- src/rsm/reducers.py and src/rsm/transitions.py: the registry against the families.
use absolute_zero.Prelude.{
  String, ◌≡◌, refl, sym, ap, ◌∙◌, inl, inr, true, false, List, [], ◌∷◌, ◌||◌, elem, all_of,
  all_of-elem, arith, str_eq, eq_iff, is_some, Bool-cases,
}
use absolute_zero.Prelude.Dict
use absolute_zero.Prelude.Dict.{Dict}
use absolute_zero.Rsm.Transitions.{registered_families, birth_family}
use absolute_zero.Rsm.Reducers.{registry, reducer_of, schemas}

contains-keys :
    {V : Type 0} (k : String) (d : Dict V) → is_some (Dict.get k d) ≡ elem k (Dict.keys d)
unfolding Dict.get Dict.keys
contains-keys k [] = refl
contains-keys k ((j, v) ∷ d) = ground (arith, contains-keys k d, eq_iff j k, eq_iff k j)

-- Two lists with the same elements, which is computed.
same_elements :
    (xs ys : List String) (k : String)
    → all_of (λ x. elem x ys) xs ≡ true
    → all_of (λ y. elem y xs) ys ≡ true
    → elem k xs ≡ elem k ys
same_elements xs ys k there here = elim (Bool-cases (elem k xs)) [
  | inl a ↦ a ∙ sym (all_of-elem (λ x. elem x ys) xs k there a)
  | inr a ↦ elim (Bool-cases (elem k ys)) [
    | inl b ↦ absurd (cc (sym a ∙ all_of-elem (λ y. elem y xs) ys k here b))
    | inr b ↦ a ∙ sym b
  ]
]

-- A family is registered exactly if it is the birth or has a reducer, and exactly if it has a
-- schema.
pub registry_complete :
    (family : String)
    → (elem family registered_families
        ≡ (str_eq family birth_family || is_some (reducer_of family)))
      × (elem family registered_families ≡ is_some (Dict.get family schemas))
unfolding registered_families reducer_of registry schemas Dict.keys
registry_complete family = (
  same_elements registered_families (birth_family ∷ Dict.keys registry) family refl refl
      ∙ ap (λ b. str_eq family birth_family || b) (sym (contains-keys family registry)),
  same_elements registered_families (Dict.keys schemas) family refl refl
      ∙ sym (contains-keys family schemas),
)

-- The birth has no reducer.
pub birth_unregistered : is_some (reducer_of birth_family) ≡ false
unfolding reducer_of registry
birth_unregistered = refl
