-- ===== src/Argprocess/Shorthand/RoundTrip.antt =====
-- Pairs that are written out as shorthand syntax are read back.
use m_awsexp.Common.{
  Str, ℕ, List, [], ◌∷◌, ◌++◌, Option, none, some, Bool, true, false, not, ◌||◌, ◌≡◌, refl, ◌∙◌,
}
use m_awsexp.Common.{
  ◌==◌, if◌then◌else◌, All, Free, split, join, split-append, split-Free, arith, str_eq, str_eq_iff,
}
use m_awsexp.Argprocess.Parse.{ok}
use m_awsexp.Argprocess.Commas.{has_char, split_on_commas}
use m_awsexp.Argprocess.Shapes.{Shape, map, Value, text, dict, Fields, empty, field, Host}
use m_awsexp.Argprocess.Shorthand.{
  split_once, assign, get, key_value_parts, key_value_parse, split_commas,
}
use m_awsexp.Configure.Line.{strip}

-- No quotes, no brackets and no backslash.
abbrev unquoted : ℕ → Bool
unquoted c = not (c == b'"' || c == b'\'' || c == b'[' || c == b']' || c == b'\\')

abbrev pub Unquoted : Str → Type 0
Unquoted = All (λ c. unquoted c ≡ true)

-- A key and a value that need no quotes, with no spaces at their ends.
pub record IsPlain (pair : Str × Str) : Type 0 where
  pub key_unquoted : Unquoted pair.0
  pub key_commas : Free b',' pair.0
  pub key_equals : Free b'=' pair.0
  pub key_trimmed : strip pair.0 ≡ pair.0
  pub value_unquoted : Unquoted pair.1
  pub value_commas : Free b',' pair.1
  pub value_trimmed : strip pair.1 ≡ pair.1

-- key=value
unfoldable pub pair_text : Str × Str → Str
pair_text (key, value) = key ++ b'=' ∷ value

unfoldable pub pair_texts : List (Str × Str) → List Str
unfolding pair_text
pair_texts [] = []
pair_texts (pair ∷ pairs) = pair_text pair ∷ pair_texts pairs

-- The last value of a key.
unfoldable pub last_value : Str → List (Str × Str) → Option Value
unfolding str_eq
last_value key [] = none
last_value key ((k, v) ∷ pairs) = elim (last_value key pairs) [
  | some w ↦ some w
  | none ↦ if str_eq k key then some (text v) else none
]

All-append {ℓ} :
    {A : Type ℓ} (P : A → Type 0) (xs ys : List A) → All P xs → All P ys → All P (xs ++ ys)
All-append P [] ys p q = q
All-append P (x ∷ xs) ys (p, ps) q = (p, All-append P xs ys ps q)

abbrev Absent : ℕ → ℕ → Type 0
Absent c d = (d == c) ≡ false

has_char-Absent : (c : ℕ) (s : Str) → All (Absent c) s → has_char c s ≡ false
unfolding has_char
has_char-Absent c [] h = refl
has_char-Absent c (d ∷ s) (h, hs) = rw (h, has_char-Absent c s hs)

Unquoted-Absent :
    (c : ℕ) (s : Str) → ((d : ℕ) → unquoted d ≡ true → Absent c d) → Unquoted s → All (Absent c) s
Unquoted-Absent c [] k h = tt
Unquoted-Absent c (d ∷ s) k (h, hs) = (k d h, Unquoted-Absent c s k hs)

pair_text-Unquoted : (pair : Str × Str) → IsPlain pair → Unquoted (pair_text pair)
unfolding pair_text
pair_text-Unquoted (key, value) p =
    All-append _ key (b'=' ∷ value) p.key_unquoted (refl, p.value_unquoted)

pair_text-Free : (pair : Str × Str) → IsPlain pair → Free b',' (pair_text pair)
unfolding pair_text
pair_text-Free (key, value) p =
    All-append _ key (b'=' ∷ value) p.key_commas (ground arith, p.value_commas)

join-Unquoted :
    (pairs : List (Str × Str)) → All IsPlain pairs → Unquoted (join b',' (pair_texts pairs))
unfolding join pair_texts
join-Unquoted [] p = tt
join-Unquoted (pair ∷ []) (p, _) = pair_text-Unquoted pair p
join-Unquoted (pair ∷ next ∷ pairs) (p, ps) =
    All-append _ (pair_text pair) _ (pair_text-Unquoted pair p)
      (refl, join-Unquoted (next ∷ pairs) ps)

split-join :
    (pair : Str × Str) (pairs : List (Str × Str))
    → All IsPlain (pair ∷ pairs)
    → split b',' (join b',' (pair_texts (pair ∷ pairs))) ≡ pair_texts (pair ∷ pairs)
unfolding join pair_texts
split-join pair [] (p, _) = split-Free b',' (pair_text pair) (pair_text-Free pair p)
split-join pair (next ∷ pairs) (p, ps) = rw (
  split-append b',' (pair_text pair) (join b',' (pair_texts (next ∷ pairs)))
      (pair_text-Free pair p),
  split-join next pairs ps,
)

-- Without quotes the commas alone decide.
split_on_commas-Unquoted :
    (value : Str) → Unquoted value → split_on_commas value ≡ ok (split b',' value)
unfolding split_on_commas
split_on_commas-Unquoted value h =
    rw
      (
        has_char-Absent b'"' value (Unquoted-Absent b'"' value (λ d k. ground arith) h),
        has_char-Absent b'\'' value (Unquoted-Absent b'\'' value (λ d k. ground arith) h),
        has_char-Absent b'[' value (Unquoted-Absent b'[' value (λ d k. ground arith) h),
        has_char-Absent b']' value (Unquoted-Absent b']' value (λ d k. ground arith) h),
        has_char-Absent b'\\' value (Unquoted-Absent b'\\' value (λ d k. ground arith) h),
      )
      refl

split_once-pair :
    (key value : Str) → Free b'=' key → split_once (key ++ b'=' ∷ value) ≡ some (key, value)
unfolding split_once
split_once-pair [] value h = refl
split_once-pair (c ∷ key) value (h, hs) = rw (split_once-pair key value hs) (ground arith)

-- The dictionary that the pairs make, one after the other.
assigned : List (Str × Str) → Fields → Fields
assigned [] parsed = parsed
assigned ((k, v) ∷ pairs) parsed = assigned pairs (assign k (text v) parsed)

get-assign :
    (key k : Str) (v : Value) (fs : Fields)
    → get key (assign k v fs) ≡ (if str_eq k key then some v else get key fs)
unfolding get assign
get-assign key k v empty = refl
get-assign key k v (field j w fs) =
    ground (arith, str_eq_iff j k, str_eq_iff k key, str_eq_iff j key, get-assign key k v fs)

get-assigned :
    (key : Str) (pairs : List (Str × Str)) (fs : Fields)
    → get key (assigned pairs fs)
      ≡ (elim (last_value key pairs) as (λ _. Option Value) [ some w ↦ some w | none ↦ get key fs ])
unfolding assigned last_value
get-assigned key [] fs = refl
get-assigned key ((k, v) ∷ pairs) fs =
    ground (arith, get-assigned key pairs (assign k (text v) fs), get-assign key k (text v) fs)

of_empty :
    (key : Str) (o : Option Value)
    → (elim o as (λ _. Option Value) [ some w ↦ some w | none ↦ get key empty ]) ≡ o
unfolding get
of_empty key none = refl
of_empty key (some w) = refl

module _ (host : Host) (name : Str) (s : Shape) where
  key_value_parts-assigned :
      (pairs : List (Str × Str)) (parsed : Fields)
      → All IsPlain pairs
      → key_value_parts host (map name none s) (pair_texts pairs) parsed
        ≡ ok (assigned pairs parsed)
  unfolding key_value_parts pair_texts assigned
  key_value_parts-assigned [] parsed p = refl
  key_value_parts-assigned ((k, v) ∷ pairs) parsed (p, ps) =
      rw (split_once-pair k v p.key_equals, key_value_parts)
        (rw (p.key_trimmed, p.value_trimmed)
          (key_value_parts-assigned pairs (assign k (text v) parsed) ps))

  -- For a map without an enum of keys: pairs key=value, joined by commas, are read back. The
  -- dictionary has the last value of each key of the pairs, and no other key. Keys and values have
  -- no quotes, brackets, backslashes or commas and no spaces at their ends, keys no equals signs.
  pub key_value_parse-join :
      (pair : Str × Str) (pairs : List (Str × Str))
      → All IsPlain (pair ∷ pairs)
      → (fs : Fields) × (key_value_parse host
            (map name none s)
            (join b',' (pair_texts (pair ∷ pairs)))
          ≡ ok (dict fs))
        × ((key : Str) → get key fs ≡ last_value key (pair ∷ pairs))
  unfolding key_value_parse split_commas
  key_value_parse-join pair pairs p =
      let value = join b',' (pair_texts (pair ∷ pairs)) in
      (
        assigned (pair ∷ pairs) empty,
        rw
            (
              split_on_commas-Unquoted value (join-Unquoted (pair ∷ pairs) p),
              split-join pair pairs p,
            )
            (rw (key_value_parts-assigned (pair ∷ pairs) empty p) refl),
        λ key. get-assigned key (pair ∷ pairs) empty ∙ of_empty key (last_value key (pair ∷ pairs)),
      )
