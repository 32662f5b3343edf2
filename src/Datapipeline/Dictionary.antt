-- ===== src/Datapipeline/Dictionary.antt =====
-- What a dictionary holds for a key after its items were taken apart and put together again.

use m_awsexp.Common.{
  lookup, Option, Str, str_eq, ◌≡◌, false, some, none, str_eq_refl, arith, ◌∷◌, [], ◌∙◌, str_eq_iff,
  refl, if_both, ap, if◌then◌else◌, str_lt, List, Bool-cases, ◌++◌, inl, sym, inr,
}
use m_awsexp.Datapipeline.Translator.{
  insert_item, sort_items, add_value, Items, Value, Item, one, many, aggregated, add_fields,
  fields_of, parse_each_field, Field, convert_single_field,
}
use mathlib.Core.List.{map, append-nil, append_assoc}

-- A dictionary has each key once.
abbrev pub Distinct : Items → Type 0
Distinct [] = Unit
Distinct ((k, v) ∷ items) = (lookup k items ≡ none) × Distinct items

-- A value as it comes back: an empty list is lost, and a list of one item is the item.
abbrev pub restored : Value → Option Value
restored (one item) = some (one item)
restored (many []) = none
restored (many (x ∷ [])) = some (one x)
restored (many (x ∷ y ∷ items)) = some (many (x ∷ y ∷ items))

lookup-insert_item :
    (key : Str) (value : Value) (items : Items) (k : Str)
    → lookup key items ≡ none
    → lookup k (insert_item key value items) ≡ lookup k ((key, value) ∷ items)
unfolding lookup insert_item
lookup-insert_item key value [] k h = refl
lookup-insert_item key value ((j, v) ∷ items) k h =
    let rest = lookup-insert_item key value items k in
    let same = str_eq_iff j key in
    let first = str_eq_iff key k in let second = str_eq_iff j k in ground arith

Distinct-insert_item :
    (key : Str) (value : Value) (items : Items)
    → lookup key items ≡ none
    → Distinct items
    → Distinct (insert_item key value items)
unfolding insert_item lookup
Distinct-insert_item key value [] h d = (refl, tt)
Distinct-insert_item key value ((j, v) ∷ items) h (n, d) =
    let below : lookup key items ≡ none = ground arith in
    let apart : lookup j ((key, value) ∷ items) ≡ none =
      let same = str_eq_iff j key in let other = str_eq_iff key j in ground arith in
    let rest = Distinct-insert_item key value items below d in
    if_both Distinct (str_lt j key) (lookup-insert_item key value items j below ∙ apart, rest)
      (h, (n, d))

-- Sorted, a dictionary is the same.
pub sort_items_lem :
    (items : Items)
    → Distinct items
    → Distinct (sort_items items) × ((k : Str) → lookup k (sort_items items) ≡ lookup k items)
unfolding sort_items lookup
sort_items_lem [] d = (tt, λ k. refl)
sort_items_lem ((key, value) ∷ items) (n, d) =
    let (distinct, same) = sort_items_lem items d in
    let fresh = same key ∙ n in
    (
      Distinct-insert_item key value (sort_items items) fresh distinct,
      λ k.
          lookup-insert_item key value (sort_items items) k fresh
          ∙ ap (λ r. if str_eq key k then some value else r) (same k),
    )

lookup-add_value_other :
    (key k : Str) (value : Item) (m : Items)
    → str_eq key k ≡ false
    → lookup k (add_value key value m) ≡ lookup k m
unfolding lookup add_value
lookup-add_value_other key k value [] h = ground arith
lookup-add_value_other key k value ((j, v) ∷ m) h =
    let rest = lookup-add_value_other key k value m h in let same = str_eq_iff j key in ground arith

abbrev plus : Option Value → Item → Value
plus none value = one value
plus (some v) value = aggregated v value

lookup-add_value :
    (k : Str) (value : Item) (m : Items)
    → lookup k (add_value k value m) ≡ some (plus (lookup k m) value)
unfolding lookup add_value
lookup-add_value k value [] = let same = str_eq_refl k in ground arith
lookup-add_value k value ((j, v) ∷ m) = let rest = lookup-add_value k value m in ground arith

add_fields-append :
    (xs ys : List Field) (m : Items) → add_fields (xs ++ ys) m ≡ add_fields ys (add_fields xs m)
unfolding add_fields
add_fields-append [] ys m = refl
add_fields-append (x ∷ xs) ys m = add_fields-append xs ys (add_value x.key x.value m)

-- The fields of one key leave the others.
add_fields-map_other :
    (key k : Str) (items : List Item) (m : Items)
    → str_eq key k ≡ false
    → lookup k (add_fields (map (convert_single_field key) items) m) ≡ lookup k m
unfolding add_fields
add_fields-map_other key k [] m h = refl
add_fields-map_other key k (x ∷ items) m h =
    add_fields-map_other key k items (add_value key x m) h ∙ lookup-add_value_other key k x m h

lookup-parse_each_field_other :
    (key k : Str) (value : Value) (m : Items)
    → str_eq key k ≡ false
    → lookup k (add_fields (parse_each_field key value) m) ≡ lookup k m
unfolding parse_each_field add_fields
lookup-parse_each_field_other key k (one item) m h = lookup-add_value_other key k item m h
lookup-parse_each_field_other key k (many items) m h = add_fields-map_other key k items m h

after : Option Value → List Item → Option Value
after o [] = o
after o (x ∷ xs) = after (some (plus o x)) xs

after-many : (ys xs : List Item) → after (some (many ys)) xs ≡ some (many (ys ++ xs))
unfolding after
after-many ys [] = ap (λ l. some (many l)) (sym (append-nil ys))
after-many ys (x ∷ xs) =
    after-many (ys ++ x ∷ []) xs ∙ ap (λ l. some (many l)) (append_assoc ys (x ∷ []) xs)

after-none : (xs : List Item) → after none xs ≡ restored (many xs)
unfolding after
after-none [] = refl
after-none (x ∷ []) = refl
after-none (x ∷ y ∷ xs) = after-many (x ∷ y ∷ []) xs

add_fields-map_own :
    (k : Str) (items : List Item) (m : Items)
    → lookup k (add_fields (map (convert_single_field k) items) m) ≡ after (lookup k m) items
unfolding add_fields after
add_fields-map_own k [] m = refl
add_fields-map_own k (x ∷ items) m =
    add_fields-map_own k items (add_value k x m) ∙ ap (λ o. after o items) (lookup-add_value k x m)

lookup-parse_each_field :
    (k : Str) (value : Value) (m : Items)
    → lookup k m ≡ none
    → lookup k (add_fields (parse_each_field k value) m) ≡ restored value
unfolding parse_each_field add_fields
lookup-parse_each_field k (one item) m h =
    lookup-add_value k item m ∙ ap (λ o. some (plus o item)) h
lookup-parse_each_field k (many items) m h =
    add_fields-map_own k items m ∙ ap (λ o. after o items) h ∙ after-none items

abbrev pub restored_at : Option Value → Option Value
restored_at none = none
restored_at (some v) = restored v

pub lookup-fields_of-none :
    (items : Items) (k : Str) (m : Items)
    → lookup k items ≡ none
    → lookup k (add_fields (fields_of items) m) ≡ lookup k m
unfolding fields_of lookup add_fields
lookup-fields_of-none [] k m h = refl
lookup-fields_of-none ((key, value) ∷ items) k m h =
    let apart : str_eq key k ≡ false = ground arith in
    let below : lookup k items ≡ none = ground arith in
    rw (add_fields-append (parse_each_field key value) (fields_of items) m) (
      lookup-fields_of-none items k (add_fields (parse_each_field key value) m) below
      ∙ lookup-parse_each_field_other key k value m apart)

-- Behind the fields of a dictionary a new key has the value that comes back.
pub lookup-fields_of :
    (items : Items) (k : Str) (m : Items)
    → Distinct items
    → lookup k m ≡ none
    → lookup k (add_fields (fields_of items) m) ≡ restored_at (lookup k items)
unfolding fields_of lookup add_fields
lookup-fields_of [] k m d h = h
lookup-fields_of ((key, value) ∷ items) k m (n, d) h =
    let first = add_fields (parse_each_field key value) m in
    elim (Bool-cases (str_eq key k)) [
      | inl same ↦
          let e = (str_eq_iff key k).0 same in
          let fresh = ap (λ j. lookup j items) (sym e) ∙ n in
          rw (add_fields-append (parse_each_field key value) (fields_of items) m, same)
            (lookup-fields_of-none items k first fresh
              ∙ ap (λ j. lookup k (add_fields (parse_each_field j value) m)) e
              ∙ lookup-parse_each_field k value m h)
      | inr apart ↦
          rw (add_fields-append (parse_each_field key value) (fields_of items) m, apart)
            (lookup-fields_of items k first d
              (lookup-parse_each_field_other key k value m apart ∙ h))
    ]
