-- ===== src/Value/Sorted.antt =====
-- The values as JSON keeps them when it writes the keys of every object in order.
use Prim.Native.String.{compare}
use Prim.Native.Nat.{Ordering}
use absolute_zero.Prelude.{
  String, ◌≡◌, refl, ◌∙◌, inl, inr, Bool, true, false, not, ◌&&◌, ◌||◌, Option, none, some, is_some,
  arith, str_eq, eq_iff, Bool-cases, if◌then◌else◌,
}
use absolute_zero.Value.{
  Value, null, bool, int, str, list, dict, Items, nil, cons, Fields, end, field, find, fields_of,
}

abbrev is_less : Ordering → Bool
is_less Ordering.lt = true
is_less _ = false

-- `j <= k` of two texts
abbrev key_le : String → String → Bool
key_le j k = str_eq j k || is_less (compare j k)

unfoldable pub insert_field : String → Value → Fields → Fields
insert_field k v end = field k v end
insert_field k v (field j w d) =
    let rest = insert_field k v d in if key_le k j then field k v (field j w d) else field j w rest

-- The value that `json.loads` makes of `json.dumps(v, sort_keys=True)`.
unfoldable mutual
  unfolding insert_field

  pub sort_keys : Value → Value
  sort_keys (list xs) = list (sort_items xs)
  sort_keys (dict d) = dict (sort_fields d)
  sort_keys null = null
  sort_keys (bool b) = bool b
  sort_keys (int n) = int n
  sort_keys (str s) = str s

  pub sort_items : Items → Items
  sort_items nil = nil
  sort_items (cons v xs) = cons (sort_keys v) (sort_items xs)

  pub sort_fields : Fields → Fields
  sort_fields end = end
  sort_fields (field k v d) = insert_field k (sort_keys v) (sort_fields d)

-- A value of Python: no object has a key twice.
unfoldable mutual
  unfolding find

  pub is_distinct : Value → Bool
  is_distinct (list xs) = are_distinct xs
  is_distinct (dict d) = distinct_fields d
  is_distinct null = true
  is_distinct (bool b) = true
  is_distinct (int n) = true
  is_distinct (str s) = true

  pub are_distinct : Items → Bool
  are_distinct nil = true
  are_distinct (cons v xs) = is_distinct v && are_distinct xs

  pub distinct_fields : Fields → Bool
  distinct_fields end = true
  distinct_fields (field k v d) = not (is_some (find k d)) && is_distinct v && distinct_fields d

abbrev pub sorted_value : Option Value → Option Value
sorted_value none = none
sorted_value (some v) = some (sort_keys v)

find-insert_field :
    (k j : String) (v : Value) (d : Fields)
    → find j (insert_field k v d) ≡ (if str_eq k j then some v else find j d)
unfolding find insert_field
find-insert_field k j v end = refl
find-insert_field k j v (field i w d) = elim (Bool-cases (key_le k i)) [
  | inl before ↦ rw (before, insert_field) refl
  | inr after ↦
      rw (after, insert_field)
        (ground (arith, find-insert_field k j v d, eq_iff k i, eq_iff k j, eq_iff i j, after))
]

-- The sorted object has the fields of the object.
pub find-sort_fields : (j : String) (d : Fields) → find j (sort_fields d) ≡ sorted_value (find j d)
unfolding find sort_keys
find-sort_fields j end = refl
find-sort_fields j (field k v d) = elim (Bool-cases (str_eq k j)) [
  | inl same ↦ find-insert_field k j (sort_keys v) (sort_fields d) ∙ rw same refl
  | inr other ↦
      find-insert_field k j (sort_keys v) (sort_fields d) ∙ rw other (find-sort_fields j d)
]

-- The same for a value that may be an object.
pub find-sort_keys :
    (j : String) (v : Value)
    → find j (fields_of (sort_keys v)) ≡ sorted_value (find j (fields_of v))
unfolding find sort_keys
find-sort_keys j (dict d) = find-sort_fields j d
find-sort_keys j null = refl
find-sort_keys j (bool b) = refl
find-sort_keys j (int n) = refl
find-sort_keys j (str s) = refl
find-sort_keys j (list xs) = refl
