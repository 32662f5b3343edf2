-- ===== src/Argprocess/Shorthand/Pairs.antt =====
-- What is stored for the keys of a dictionary by `_key_value_parse` fits the model.
use m_awsexp.Common.{Str, List, [], ◌∷◌, none, some, true, ◌≡◌, str_eq, sym}
use m_awsexp.Common.{str_eq_iff, Bool-cases, Option-cases, inl, inr, arith}
use m_awsexp.Argprocess.Parse.{ok, err, >>=-eq-ok, ok-injective, unknown_key}
use m_awsexp.Argprocess.Shapes.{
  Shape, scalar, structure, list, map, Members, nil, member, Host, is_in,
}
use m_awsexp.Argprocess.Shapes.{Value, Values, end, item, Fields, empty, field}
use m_awsexp.Argprocess.Shapes.{unpack_scalar_cli_arg}
use m_awsexp.Argprocess.Shapes.Typed.{HasShape, MemberFits, AllFields, AllItems, KeyFits, IsText}
use m_awsexp.Argprocess.Shapes.Typed.{text-HasShape, AllScalar, AllScalarOrTexts, IsScalar}
use m_awsexp.Argprocess.Shapes.Typed.{unpack_as-HasType}
use m_awsexp.Argprocess.Shorthand.{
  find_member, assign, get, append, texts, unpack_member, check_enum,
}
use m_awsexp.Argprocess.Shorthand.{unpack_for, key_value_parts}
use m_awsexp.Argprocess.Shorthand.{split_once}
use m_awsexp.Argprocess.Shorthand.Methods.{SomeScalars}
use m_awsexp.Configure.Line.{strip}
use mathlib.Core.Option.{some-injective}
use mathlib.Core.Path.{subst}

-- A scalar, or a list of texts.
abbrev pub ScalarOrTexts : Shape → Type 0
ScalarOrTexts (scalar name t) = Unit
ScalarOrTexts (list name s) = IsText s
ScalarOrTexts _ = ⊥

abbrev same : (k key : Str) → str_eq k key ≡ true → k ≡ key
same k key h = (str_eq_iff k key).0 h

pub MemberFits-found :
    (ms : Members) (key : Str) (s : Shape) (v : Value)
    → find_member key ms ≡ some s
    → HasShape s v
    → MemberFits ms key v
unfolding find_member HasShape
MemberFits-found nil key s v e h = cc
MemberFits-found (member k t ms) key s v e h = elim (Bool-cases (str_eq k key)) [
  | inl here ↦
      let found : some t ≡ some s = rw here at e in
      rw here (subst (λ (u : Shape). HasShape u v) (sym (some-injective t s found)) h)
  | inr there ↦ rw there (MemberFits-found ms key s v (rw there at e) h)
]

pub found-HasShape :
    (ms : Members) (key : Str) (s : Shape) (v : Value)
    → find_member key ms ≡ some s
    → MemberFits ms key v
    → HasShape s v
unfolding find_member HasShape
found-HasShape nil key s v e h = absurd h
found-HasShape (member k t ms) key s v e h = elim (Bool-cases (str_eq k key)) [
  | inl here ↦
      let found : some t ≡ some s = rw here at e in
      subst (λ (u : Shape). HasShape u v) (some-injective t s found) (rw here at h)
  | inr there ↦ found-HasShape ms key s v (rw there at e) (rw there at h)
]

found-IsScalar :
    (ms : Members) (key : Str) (s : Shape) → AllScalar ms → find_member key ms ≡ some s → IsScalar s
unfolding find_member
found-IsScalar nil key s a e = cc
found-IsScalar (member k (scalar name t) ms) key s a e = elim (Bool-cases (str_eq k key)) [
  | inl here ↦
      let found : some (scalar name t) ≡ some s = rw here at e in
      subst IsScalar (some-injective (scalar name t) s found) tt
  | inr there ↦ found-IsScalar ms key s a (rw there at e)
]
found-IsScalar (member k (structure name ns) ms) key s a e = absurd a
found-IsScalar (member k (list name t) ms) key s a e = absurd a
found-IsScalar (member k (map name keys t) ms) key s a e = absurd a

pub found-ScalarOrTexts :
    (ms : Members) (key : Str) (s : Shape)
    → AllScalarOrTexts ms
    → find_member key ms ≡ some s
    → ScalarOrTexts s
unfolding find_member
found-ScalarOrTexts nil key s a e = cc
found-ScalarOrTexts (member k (scalar name t) ms) key s a e = elim (Bool-cases (str_eq k key)) [
  | inl here ↦
      let found : some (scalar name t) ≡ some s = rw here at e in
      subst ScalarOrTexts (some-injective (scalar name t) s found) tt
  | inr there ↦ found-ScalarOrTexts ms key s a (rw there at e)
]
found-ScalarOrTexts (member k (list name t) ms) key s (a, rest) e =
    elim (Bool-cases (str_eq k key)) [
      | inl here ↦
          let found : some (list name t) ≡ some s = rw here at e in
          subst ScalarOrTexts (some-injective (list name t) s found) a
      | inr there ↦ found-ScalarOrTexts ms key s rest (rw there at e)
    ]
found-ScalarOrTexts (member k (structure name ns) ms) key s a e = absurd a
found-ScalarOrTexts (member k (map name keys t) ms) key s a e = absurd a

pub assign-AllFields :
    (P : Str → Value → Type 0) (key : Str) (value : Value) (fs : Fields)
    → P key value
    → AllFields P fs
    → AllFields P (assign key value fs)
unfolding assign
assign-AllFields P key value empty p h = (p, tt)
assign-AllFields P key value (field k v fs) p (h, hs) = elim (Bool-cases (str_eq k key)) [
  | inl here ↦ rw here (subst (λ (j : Str). P j value) (sym (same k key here)) p, hs)
  | inr there ↦ rw there (h, assign-AllFields P key value fs p hs)
]

pub get-AllFields :
    (P : Str → Value → Type 0) (key : Str) (value : Value) (fs : Fields)
    → get key fs ≡ some value
    → AllFields P fs
    → P key value
unfolding get
get-AllFields P key value empty e h = cc
get-AllFields P key value (field k v fs) e (h, hs) = elim (Bool-cases (str_eq k key)) [
  | inl here ↦
      let found : some v ≡ some value = rw here at e in
      subst (λ (j : Str). P j value) (same k key here)
        (subst (λ (w : Value). P k w) (some-injective v value found) h)
  | inr there ↦ get-AllFields P key value fs (rw there at e) hs
]

pub texts-AllItems : (s : Shape) (ss : List Str) → IsText s → AllItems (HasShape s) (texts ss)
unfolding texts
texts-AllItems s [] h = tt
texts-AllItems s (x ∷ ss) h = (text-HasShape s x h, texts-AllItems s ss h)

pub append-AllItems :
    (P : Value → Type 0) (vs : Values) (v : Value) → AllItems P vs → P v → AllItems P (append vs v)
unfolding append
append-AllItems P end v h p = (p, tt)
append-AllItems P (item w vs) v (h, hs) p = (h, append-AllItems P vs v hs p)

-- What fits below a key of a model.
unfoldable pub FieldFits : Shape → Str → Value → Type 0
FieldFits (structure name ms) key v = MemberFits ms key v
FieldFits (map name keys s) key v = KeyFits keys key × HasShape s v
FieldFits _ key v = ⊥

-- The models that `_key_value_parse` reads, the values of a map being texts.
abbrev pub ReadsPairs : Shape → Type 0
ReadsPairs (structure name ms) = SomeScalars ms
ReadsPairs (map name keys s) = IsText s
ReadsPairs _ = ⊥

module _ (host : Host) where
  pub unpack_scalar-HasShape :
      (s : Shape) (value : Str) (v : Value)
      → IsScalar s
      → unpack_scalar_cli_arg host s value ≡ ok v
      → HasShape s v
  unfolding unpack_scalar_cli_arg HasShape
  unpack_scalar-HasShape (scalar name t) value v h e = unpack_as-HasType host t value v e
  unpack_scalar-HasShape (structure name ms) value v h e = absurd h
  unpack_scalar-HasShape (list name s) value v h e = absurd h
  unpack_scalar-HasShape (map name keys s) value v h e = absurd h

  check_enum-KeyFits :
      (names : List Str) (key value : Str) (v : Value) (s : Shape)
      → IsText s
      → check_enum host names key value ≡ ok v
      → KeyFits (some names) key × HasShape s v
  unfolding check_enum
  check_enum-KeyFits [] key value v s h e =
      (tt, subst (HasShape s) (ok-injective e) (text-HasShape s value h))
  check_enum-KeyFits (n ∷ names) key value v s h e = elim (Bool-cases (is_in key (n ∷ names))) [
    | inl known ↦
        (known, subst (HasShape s) (ok-injective (rw known at e)) (text-HasShape s value h))
    | inr unknown ↦ let bad : err (unknown_key key (n ∷ names)) ≡ ok v = rw unknown at e in cc
  ]

  unpack_for-FieldFits :
      (param : Shape) (key value : Str) (v : Value)
      → ReadsPairs param
      → unpack_for host param key value ≡ ok v
      → FieldFits param key v
  unfolding unpack_for unpack_member FieldFits
  unpack_for-FieldFits (scalar name t) key value v h e = absurd h
  unpack_for-FieldFits (list name s) key value v h e = absurd h
  unpack_for-FieldFits (structure name nil) key value v h e = absurd h
  unpack_for-FieldFits (structure name (member k s ms)) key value v h e =
      elim (Option-cases (find_member key (member k s ms))) [
        | inl unknown ↦ ground arith
        | inr (t, found) ↦ MemberFits-found (member k s ms) key t v found (
            unpack_scalar-HasShape t value v (found-IsScalar (member k s ms) key t h found)
              (rw (found, unpack_member) at e))
      ]
  unpack_for-FieldFits (map name none s) key value v h e =
      (tt, subst (HasShape s) (ok-injective e) (text-HasShape s value h))
  unpack_for-FieldFits (map name (some names) s) key value v h e =
      check_enum-KeyFits names key value v s h e

  pub key_value_parts-AllFields :
      (param : Shape) (parts : List Str) (parsed fs : Fields)
      → ReadsPairs param
      → AllFields (FieldFits param) parsed
      → key_value_parts host param parts parsed ≡ ok fs
      → AllFields (FieldFits param) fs
  unfolding key_value_parts
  key_value_parts-AllFields param [] parsed fs r h e =
      subst (AllFields (FieldFits param)) (ok-injective e) h
  key_value_parts-AllFields param (part ∷ parts) parsed fs r h e =
      elim (Option-cases (split_once part)) [
        | inl no_pair ↦ ground arith
        | inr ((key, value), pair) ↦
            let (v, unpacked, rest) =
              >>=-eq-ok (unpack_for host param (strip key) (strip value)) _
                (rw (pair, key_value_parts) at e) in
            key_value_parts-AllFields param parts (assign (strip key) v parsed) fs r
              (assign-AllFields (FieldFits param) (strip key) v parsed
                (unpack_for-FieldFits param (strip key) (strip value) v r unpacked) h)
              rest
      ]
