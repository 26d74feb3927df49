-- ===== src/Prelude/Lists.antt =====
-- Lists over the native numbers, and membership of a text in a list.
use Prim.Native.Nat.{ℕ, suc, ◌+◌}
use Prim.Native.String.{String}
use mathlib.Core.Path.{◌≡◌, sym, subst}
use mathlib.Core.Logic.{inl, inr}
use mathlib.Core.Bool.{Bool, true, false, ◌||◌, ◌&&◌}
use mathlib.Core.List.{List, [], ◌∷◌, ◌++◌}
use native.Mathlib.Omega.{arith}
use text.Mathlib.Text.{◌==◌}
use text.Mathlib.TextEquality.{eq_iff}
use absolute_zero.Prelude.Tests.{Bool-cases}

module _ {ℓ} {A : Type ℓ} where
  abbrev pub length : List A → ℕ
  length [] = 0
  length (x ∷ xs) = suc (length xs)

  pub length-append : (xs ys : List A) → length (xs ++ ys) ≡ length xs + length ys
  length-append [] ys = omega arith
  length-append (x ∷ xs) ys = omega (arith, length-append xs ys)

-- `s in names`
abbrev pub elem : String → List String → Bool
elem s [] = false
elem s (x ∷ xs) = s == x || elem s xs

-- A predicate of every element.
abbrev pub All {ℓ κ} : {A : Type ℓ} → (A → Type κ) → List A → Type κ
All P [] = Unit
All P (x ∷ xs) = P x × All P xs

pub All-append {ℓ κ} :
    {A : Type ℓ} (P : A → Type κ) (xs ys : List A) → All P xs → All P ys → All P (xs ++ ys)
All-append P [] ys hx hy = hy
All-append P (x ∷ xs) ys hx hy = (hx.0, All-append P xs ys hx.1 hy)

-- `all(p(x) for x in xs)`
abbrev pub all_of {ℓ} : {A : Type ℓ} → (A → Bool) → List A → Bool
all_of p [] = true
all_of p (x ∷ xs) = p x && all_of p xs

pub all_of-elem :
    (p : String → Bool) (xs : List String) (x : String)
    → all_of p xs ≡ true
    → elem x xs ≡ true
    → p x ≡ true
all_of-elem p [] x h e = ground arith
all_of-elem p (y ∷ ys) x h e = elim (Bool-cases (x == y)) [
  | inl here ↦ subst (λ z. p z ≡ true) (sym ((eq_iff x y).0 here)) (ground arith)
  | inr there ↦ all_of-elem p ys x (ground arith) (ground arith)
]

pub elem-snoc : (e d : String) (xs : List String) → elem e (xs ++ d ∷ []) ≡ (elem e xs || e == d)
elem-snoc e d [] = ground arith
elem-snoc e d (x ∷ xs) = ground (arith, elem-snoc e d xs)
