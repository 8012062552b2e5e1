-- ===== src/Requirements/Comparisons.antt =====
-- `_compare` of app/requirements/conditions.py: Python's equality and order on JSON values, and the
-- operators. `none` is a TypeError that leaves the function.
use Prim.Native.Char.{code}
use Prim.Native.Nat.{compare, Ordering}
use astra_licensing_graph.Prelude.{
  ℕ, suc, Bool, true, false, not, ◌&&◌, ◌||◌, Option, none, some, String, ℤ, pos, negsuc, Value,
  null, boolean, number, text, array, object, Items, nil, cons, Fields, end, field, get_field,
  str_eq, contains_text, ◌==◌, if◌then◌else◌,
}
use astra_licensing_graph.Requirements.Conditions.{
  Operator, eq, ne, in_, not_in, contains, not_contains, contains_any, contains_all, gt, gte, lt,
  lte, matches, before, after,
}

-- TRUE, FALSE and UNKNOWN.
pub data Truth : Type 0 where
  holds fails unknown : Truth

abbrev pub truth : Bool → Truth
truth true = holds
truth false = fails

-- What the module takes from Python: `str.casefold`, `date.fromisoformat` as an ordinal, `re.search`
-- with and without IGNORECASE, and `str` of a value.
pub record Python : Type 0 where
  pub casefold : String → String
  pub fromisoformat : String → Option ℕ
  pub search : String → String → Bool → Bool
  pub str : Value → String

abbrev int_eq : ℤ → ℤ → Bool
int_eq (pos a) (pos b) = a == b
int_eq (negsuc a) (negsuc b) = a == b
int_eq _ _ = false

-- A Boolean is the number 0 or 1.
abbrev as_number : Bool → ℤ
as_number true = pos 1
as_number false = pos 0

abbrev field_count : Fields → ℕ
field_count end = 0
field_count (field k v fs) = suc (field_count fs)

-- `a == b`; dictionaries are equal whatever their order.
unfoldable mutual
  pub value_eq : Value → Value → Bool
  value_eq null null = true
  value_eq (boolean a) (boolean b) = int_eq (as_number a) (as_number b)
  value_eq (boolean a) (number b) = int_eq (as_number a) b
  value_eq (number a) (boolean b) = int_eq a (as_number b)
  value_eq (number a) (number b) = int_eq a b
  value_eq (text a) (text b) = str_eq a b
  value_eq (array a) (array b) = items_eq a b
  value_eq (object a) (object b) = field_count a == field_count b && fields_in a b
  value_eq _ _ = false

  pub items_eq : Items → Items → Bool
  items_eq nil nil = true
  items_eq (cons x xs) (cons y ys) = value_eq x y && items_eq xs ys
  items_eq _ _ = false

  pub fields_in : Fields → Fields → Bool
  fields_in end b = true
  fields_in (field k v fs) b =
      elim (get_field k b) [ none ↦ false | some w ↦ value_eq v w ] && fields_in fs b

abbrev int_compare : ℤ → ℤ → Ordering
int_compare (pos a) (pos b) = compare a b
int_compare (pos a) (negsuc b) = Ordering.gt
int_compare (negsuc a) (pos b) = Ordering.lt
int_compare (negsuc a) (negsuc b) = compare b a

unfoldable pub text_compare : String → String → Ordering
text_compare String.[] String.[] = Ordering.eq
text_compare String.[] (String.◌∷◌ d t) = Ordering.lt
text_compare (String.◌∷◌ c s) String.[] = Ordering.gt
text_compare (String.◌∷◌ c s) (String.◌∷◌ d t) =
    let rest = text_compare s t in
    elim (compare (code c) (code d)) [
      | Ordering.lt ↦ Ordering.lt
      | Ordering.gt ↦ Ordering.gt
      | Ordering.eq ↦ rest
    ]

-- The order of two values, where Python has one: lists are compared at the first place where they
-- differ. `none` is the TypeError of the comparison.
unfoldable mutual
  unfolding value_eq text_compare

  pub value_compare : Value → Value → Option Ordering
  value_compare (boolean a) (boolean b) = some (int_compare (as_number a) (as_number b))
  value_compare (boolean a) (number b) = some (int_compare (as_number a) b)
  value_compare (number a) (boolean b) = some (int_compare a (as_number b))
  value_compare (number a) (number b) = some (int_compare a b)
  value_compare (text a) (text b) = some (text_compare a b)
  value_compare (array a) (array b) = items_compare a b
  value_compare _ _ = none

  pub items_compare : Items → Items → Option Ordering
  items_compare nil nil = some Ordering.eq
  items_compare nil (cons y ys) = some Ordering.lt
  items_compare (cons x xs) nil = some Ordering.gt
  items_compare (cons x xs) (cons y ys) =
      let rest = items_compare xs ys in
      let here = value_compare x y in if value_eq x y then rest else here

-- `_as_comparable`: a text that is an ISO date is that day.
pub data Comparable : Type 0 where
  day : ℕ → Comparable
  plain : Value → Comparable

abbrev is_less : Ordering → Bool
is_less Ordering.lt = true
is_less _ = false

abbrev is_greater : Ordering → Bool
is_greater Ordering.gt = true
is_greater _ = false

module _ (py : Python) where
  as_comparable : Value → Comparable
  as_comparable (text s) = elim (py.fromisoformat s) [ none ↦ plain (text s) | some d ↦ day d ]
  as_comparable v = plain v

  comparable_compare : Comparable → Comparable → Option Ordering
  unfolding value_compare
  comparable_compare (day a) (day b) = some (compare a b)
  comparable_compare (plain a) (plain b) = value_compare a b
  comparable_compare _ _ = none

  norm : Bool → Value → Value
  norm case_sensitive (text s) = text (if case_sensitive then s else py.casefold s)
  norm case_sensitive v = v

  norm_items : Bool → Items → Items
  unfolding norm
  norm_items cs nil = nil
  norm_items cs (cons v vs) = cons (norm cs v) (norm_items cs vs)

  norm_seq : Bool → Value → Items
  unfolding norm norm_items
  norm_seq cs (array vs) = norm_items cs vs
  norm_seq cs v = cons (norm cs v) nil

  -- `needle in haystack` on the list.
  among : Value → Items → Bool
  unfolding value_eq
  among v nil = false
  among v (cons w ws) = value_eq v w || among v ws

  -- Whether the needle is present, where the question has a meaning.
  present : Bool → Value → Value → Option Bool
  unfolding norm norm_items among
  present cs (array vs) needle = some (among (norm cs needle) (norm_items cs vs))
  present cs (text s) (text t) =
      some (contains_text (if cs then t else py.casefold t) (if cs then s else py.casefold s))
  present cs _ _ = none

  -- Lists and dictionaries have no hash: `set` raises.
  hashable : Items → Bool
  hashable nil = true
  hashable (cons (array vs) ws) = false
  hashable (cons (object fs) ws) = false
  hashable (cons v ws) = hashable ws

  some_among : Items → Items → Bool
  unfolding among
  some_among nil hay = false
  some_among (cons v vs) hay = among v hay || some_among vs hay

  all_among : Items → Items → Bool
  unfolding among
  all_among nil hay = true
  all_among (cons v vs) hay = among v hay && all_among vs hay

  -- The two sets, and a test of them.
  on_sets : (Items → Items → Bool) → Bool → Value → Value → Option Truth
  unfolding norm_seq norm_items hashable
  on_sets test cs (array vs) expected =
      if hashable (norm_items cs vs) && hashable (norm_seq cs expected)
      then some (truth (test (norm_seq cs expected) (norm_items cs vs)))
      else none
  on_sets test cs _ expected = some unknown

  ordered : (Ordering → Bool) → Value → Value → Truth
  unfolding as_comparable comparable_compare
  ordered test a b = elim (comparable_compare (as_comparable a) (as_comparable b)) [
    | none ↦ unknown
    | some o ↦ truth (test o)
  ]

  contained : (Bool → Truth) → Option Bool → Truth
  contained answer none = unknown
  contained answer (some b) = answer b

  matched : Bool → Value → Value → Truth
  matched cs (text s) expected = truth (py.search (py.str expected) s (not cs))
  matched cs _ expected = unknown

  unfoldable pub compare_values : Operator → Value → Value → Bool → Option Truth
  unfolding value_eq norm norm_seq among present on_sets some_among all_among ordered contained
      matched
  compare_values eq a e cs = some (truth (value_eq (norm cs a) (norm cs e)))
  compare_values ne a e cs = some (truth (not (value_eq (norm cs a) (norm cs e))))
  compare_values in_ a e cs = some (truth (among (norm cs a) (norm_seq cs e)))
  compare_values not_in a e cs = some (truth (not (among (norm cs a) (norm_seq cs e))))
  compare_values contains a e cs = some (contained truth (present cs a e))
  compare_values not_contains a e cs = some (contained (λ b. truth (not b)) (present cs a e))
  compare_values contains_any a e cs = on_sets some_among cs a e
  compare_values contains_all a e cs = on_sets all_among cs a e
  compare_values gt a e cs = some (ordered is_greater a e)
  compare_values gte a e cs = some (ordered (λ o. not (is_less o)) a e)
  compare_values lt a e cs = some (ordered is_less a e)
  compare_values lte a e cs = some (ordered (λ o. not (is_greater o)) a e)
  compare_values before a e cs = some (ordered is_less a e)
  compare_values after a e cs = some (ordered is_greater a e)
  compare_values matches a e cs = some (matched cs a e)
  compare_values _ a e cs = some unknown
