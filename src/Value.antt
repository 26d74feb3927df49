-- ===== src/Value.antt =====
-- The dynamic values that envelopes, snapshots and payloads hold: what `json.dumps` accepts, with
-- whole numbers only. An object is a Python dict with text keys.
pub mod Sorted
use absolute_zero.Prelude.{
  ℕ, zero, suc, ◌/◌, ◌%◌, String, Bool, true, false, Option, none, some, List, [], ◌∷◌, ◌≡◌, refl,
  map, not, arith, ◌==◌, str_eq, if◌then◌else◌,
}
use Prim.Native.String.{◌++◌}

-- Whole numbers of either sign: `negsuc n` is -(n + 1).
pub data ℤ : Type 0 where
  pos : ℕ → ℤ
  negsuc : ℕ → ℤ

abbrev pub pos_part : ℤ → ℕ
pos_part (pos n) = n
pos_part (negsuc n) = 0

-- `a == b`
abbrev pub eq_ℤ : ℤ → ℤ → Bool
eq_ℤ (pos a) (pos b) = a == b
eq_ℤ (negsuc a) (negsuc b) = a == b
eq_ℤ _ _ = false

pub eq_ℤ-refl : (a : ℤ) → eq_ℤ a a ≡ true
eq_ℤ-refl (pos n) = ground arith
eq_ℤ-refl (negsuc n) = ground arith

pub eq_ℤ-sound : (a b : ℤ) → eq_ℤ a b ≡ true → a ≡ b
eq_ℤ-sound a b h = ground arith

-- `a < 0`
abbrev pub is_negative : ℤ → Bool
is_negative (pos n) = false
is_negative (negsuc n) = true

mutual
  pub data Value : Type 0 where
    null : Value
    bool : Bool → Value
    int : ℤ → Value
    str : String → Value
    list : Items → Value
    dict : Fields → Value

  pub data Items : Type 0 where
    nil : Items
    cons : Value → Items → Items

  pub data Fields : Type 0 where
    end : Fields
    field : String → Value → Fields → Fields

-- `d.get(key)`
unfoldable pub find : String → Fields → Option Value
find key end = none
find key (field k v d) = if str_eq k key then some v else find key d

-- `isinstance(v, int)`: a `bool` is an `int`.
abbrev pub is_int : Value → Bool
is_int (int n) = true
is_int (bool b) = true
is_int _ = false

abbrev pub is_list : Value → Bool
is_list (list xs) = true
is_list _ = false

abbrev pub is_dict : Value → Bool
is_dict (dict d) = true
is_dict _ = false

-- `isinstance(v, str) and v`
abbrev pub is_name : Value → Bool
is_name (str s) = not (str_eq s "")
is_name _ = false

-- The number that a value with `isinstance(v, int)` stands for.
abbrev pub int_of : Value → ℤ
int_of (int n) = n
int_of (bool true) = pos 1
int_of _ = pos 0

abbrev pub str_of : Value → String
str_of (str s) = s
str_of _ = ""

abbrev pub fields_of : Value → Fields
fields_of (dict d) = d
fields_of _ = end

abbrev pub items_of : Value → Items
items_of (list xs) = xs
items_of _ = nil

-- A value that is a key of a dict: a list or a dict is not hashable.
abbrev pub is_hashable : Value → Bool
is_hashable (list xs) = false
is_hashable (dict d) = false
is_hashable _ = true

-- `None` for a missing text.
abbrev pub str_or_null : Option String → Value
str_or_null none = null
str_or_null (some s) = str s

abbrev pub value_or_null : Option Value → Value
value_or_null none = null
value_or_null (some v) = v

unfoldable pub strings_of : Items → List String
strings_of nil = []
strings_of (cons (str s) xs) = s ∷ strings_of xs
strings_of (cons v xs) = strings_of xs

-- `"%d" % n`: the digits are written from the last to the first, and `n + 1` rounds are enough.
digit : ℕ → String
digit n =
    if n == 0
    then "0"
    else if n == 1
    then "1"
    else if n == 2
    then "2"
    else if n == 3
    then "3"
    else if n == 4
    then "4"
    else if n == 5
    then "5"
    else if n == 6
    then "6"
    else if n == 7
    then "7"
    else if n == 8
    then "8"
    else "9"

digits : ℕ → ℕ → String → String
digits zero n out = out
digits (suc fuel) n out =
    let more = digits fuel (n / 10) (digit (n % 10) ++ out) in
    if n / 10 == 0 then digit (n % 10) ++ out else more

unfoldable pub decimal : ℕ → String
unfolding digits digit
decimal n = digits (suc n) n ""

decimal_test : decimal 1207 ≡ "1207"
unfolding decimal
decimal_test = refl

-- Literals of objects and lists.
abbrev pub obj : List (String × Value) → Fields
obj [] = end
obj ((key, v) ∷ more) = field key v (obj more)

abbrev pub arr : List Value → Items
arr [] = nil
arr (v ∷ vs) = cons v (arr vs)

abbrev pub texts : List String → Value
texts ss = list (arr (map str ss))
