-- ===== src/Table/Formatter/Regular.antt =====
-- Responses in which every list is one of scalars or one of dictionaries, which is what the services
-- return: they are laid out without an exception, in sections that can be rendered.
use m_awsexp.Table.Formatter.{Builder}
use m_awsexp.Common.{
  Str, ℕ, List, [], ◌∷◌, some, All, ◌≡◌, ◌⊎◌, inl, inr, refl, false, Bool, true, ◌≢◌, Bool-cases,
}
use m_awsexp.Table.Section.Widths.{IsNearest}
use m_awsexp.Table.Render.{plain, render}
use m_awsexp.Table.Render.Line.{IsLine}
use m_awsexp.Table.Render.Whole.{IsReady, render-SameWidth}
use m_awsexp.Table.Section.{Section}
use m_awsexp.Table.Section.Columns.{OneLine}
use m_awsexp.Common.{if_both}
use m_awsexp.Table.Formatter.{text_of, texts_of, scalar_keys, scalar_type}
use m_awsexp.Table.Formatter.{
  Value, scalar, arr, obj, Items, nil, cons, Fields, end, field, Element, cons_element,
  format_response, truthy, done,
}
use m_awsexp.Table.Formatter.{build_table, build_items, build_list, builders_of, element_of}
use m_awsexp.Table.Formatter.{elements_of, element_of_value}
use m_awsexp.Table.Formatter.Steps.{Current, Leads, Ready, new_section-Started, Started-Ready}
use m_awsexp.Table.Formatter.Steps.{Current-Ready, add_row-Started, add_row-Current, >>=-Leads}
use m_awsexp.Table.Formatter.Rows.{AllGood, IsGoodElement, build_from_list-Ready}
use m_awsexp.Table.Formatter.Rows.{build_from_dict-Ready}

-- Each list of a response is one of scalars or one of dictionaries, and no key and no scalar has a
-- line break.
abbrev pub AllScalar : Items → Type 0
AllScalar nil = Unit
AllScalar (cons (scalar text b) vs) = OneLine text × AllScalar vs
AllScalar (cons (arr xs) vs) = ⊥
AllScalar (cons (obj fs) vs) = ⊥

unfoldable mutual
  pub Regular : Value → Type 0
  Regular (scalar text b) = OneLine text
  Regular (arr xs) = AllScalar xs ⊎ AllDict xs
  Regular (obj fs) = AllRegular fs

  pub AllDict : Items → Type 0
  AllDict nil = Unit
  AllDict (cons v vs) = IsDict v × AllDict vs

  pub IsDict : Value → Type 0
  IsDict (scalar text b) = ⊥
  IsDict (arr xs) = ⊥
  IsDict (obj fs) = AllRegular fs

  pub AllRegular : Fields → Type 0
  AllRegular end = Unit
  AllRegular (field k v fs) = OneLine k × Regular v × AllRegular fs

module _ (text_of_container : Value → Str)
    (escapes : (v : Value) → OneLine (text_of_container v)) where
  scalars-Ready :
      (vs : Items) (ss : List Section)
      → AllScalar vs
      → Current 1 ss
      → Leads Ready (build_items text_of_container vs ss)
  unfolding build_table
  scalars-Ready nil ss r c = (ss, refl, Current-Ready 1 ss c)
  scalars-Ready (cons (scalar text b) vs) ss (one, r) c =
      >>=-Leads (Current 1) Ready _ _ (add_row-Current 1 (text ∷ []) ss (one, tt) refl c)
        (λ ss' c'. scalars-Ready vs ss' r c')
  scalars-Ready (cons (arr xs) vs) ss r c = absurd r
  scalars-Ready (cons (obj fs) vs) ss r c = absurd r

  -- Either the value makes a section, or there are sections already.
  abbrev Makes : Bool → List Section → Type 0
  Makes b ss = (b ≡ true) ⊎ (ss ≢ [])

  kept : (ss : List Section) → Makes false ss → All IsReady ss → Leads Ready (done ss)
  kept ss (inl e) h = cc
  kept ss (inr e) h = (ss, refl, (e, h))

  scalar_list-Ready :
      (xs : Items) (title : Str) (indent_level : ℕ) (ss : List Section)
      → OneLine title
      → AllScalar xs
      → Makes (truthy (arr xs)) ss
      → All IsReady ss
      → Leads Ready (build_list text_of_container xs (some title) indent_level ss)
  unfolding build_table truthy
  scalar_list-Ready nil title indent_level ss line r m h = kept ss m h
  scalar_list-Ready (cons (scalar text b) vs) title indent_level ss line (one, r) m h =
      >>=-Leads (Current 1) Ready _ _
        (add_row-Started (text ∷ []) _ (one, tt) (new_section-Started title indent_level ss line h))
        (λ ss' c. scalars-Ready vs ss' r c)
  scalar_list-Ready (cons (arr xs) vs) title indent_level ss line r m h = absurd r
  scalar_list-Ready (cons (obj fs) vs) title indent_level ss line r m h = absurd r

  text_of-OneLine : (v : Value) → Regular v → OneLine (text_of text_of_container v)
  unfolding text_of Regular
  text_of-OneLine (scalar text b) r = r
  text_of-OneLine (arr xs) r = escapes (arr xs)
  text_of-OneLine (obj fs) r = escapes (obj fs)

  texts_of-OneLine :
      (fs : Fields) → AllRegular fs → All (λ kv. OneLine kv.1) (texts_of text_of_container fs)
  unfolding texts_of Regular
  texts_of-OneLine end r = tt
  texts_of-OneLine (field k v fs) (one, r, rs) = (text_of-OneLine v r, texts_of-OneLine fs rs)

  scalar_keys-OneLine : (fs : Fields) → AllRegular fs → All OneLine (scalar_keys fs)
  unfolding scalar_keys Regular
  scalar_keys-OneLine end r = tt
  scalar_keys-OneLine (field k v fs) (one, r, rs) =
      let rest = scalar_keys-OneLine fs rs in if_both (All OneLine) (scalar_type v) (one, rest) rest

  fields-Good :
      (fs : Fields) (builders : List (Str × Builder))
      → AllGood builders
      → AllRegular fs
      → IsGoodElement (element_of text_of_container fs builders)
  unfolding element_of
  fields-Good fs builders g r = record {
    gets = refl;
    builds = g;
    texts_lines = texts_of-OneLine fs r;
    keys_lines = scalar_keys-OneLine fs r;
  }

  mutual
    unfolding build_table Regular element_of truthy

    build-Ready :
        (v : Value) (title : Str) (indent_level : ℕ) (ss : List Section)
        → OneLine title
        → Regular v
        → Makes (truthy v) ss
        → All IsReady ss
        → Leads Ready (build_table text_of_container v (some title) indent_level ss)
    build-Ready (scalar text true) title indent_level ss line r m h =
        let st = new_section-Started title indent_level ss line h in (_, refl, Started-Ready _ st)
    build-Ready (scalar text false) title indent_level ss line r m h = kept ss m h
    build-Ready (arr xs) title indent_level ss line (inl r) m h =
        scalar_list-Ready xs title indent_level ss line r m h
    build-Ready (arr xs) title indent_level ss line (inr r) m h =
        dict_list-Ready xs title indent_level ss line r m h
    build-Ready (obj end) title indent_level ss line r m h = kept ss m h
    build-Ready (obj (field k v fs)) title indent_level ss line (one, r, rs) m h =
        build_from_dict-Ready
          (element_of text_of_container (field k v fs)
            ((k, build_table text_of_container v (some k)) ∷ builders_of text_of_container fs))
          indent_level _
          (fields-Good (field k v fs) _
            (λ n ss' ready. build-Ready v k n ss' one r (inr ready.0) ready.1, builders-Good fs rs)
            (one, r, rs))
          (new_section-Started title indent_level ss line h)

    dict_list-Ready :
        (xs : Items) (title : Str) (indent_level : ℕ) (ss : List Section)
        → OneLine title
        → AllDict xs
        → Makes (truthy (arr xs)) ss
        → All IsReady ss
        → Leads Ready (build_list text_of_container xs (some title) indent_level ss)
    dict_list-Ready nil title indent_level ss line r m h = kept ss m h
    dict_list-Ready (cons (scalar text b) vs) title indent_level ss line r m h = absurd r.0
    dict_list-Ready (cons (arr xs) vs) title indent_level ss line r m h = absurd r.0
    dict_list-Ready (cons (obj fs) vs) title indent_level ss line (r, rs) m h =
        let (es, q, gs) = elements-Good vs rs in
        let e = element_of text_of_container fs (builders_of text_of_container fs) in
        let good = fields-Good fs _ (builders-Good fs r) r in
        let started = new_section-Started title indent_level ss line h in
        let (ss', eq, ready) =
          build_from_list-Ready (e ∷ es) title indent_level _ line (good, gs) (λ f. cc) started in
        (ss', rw (q, cons_element) eq, ready)

    builders-Good : (fs : Fields) → AllRegular fs → AllGood (builders_of text_of_container fs)
    builders-Good end r = tt
    builders-Good (field k v fs) (one, r, rs) =
        (λ n ss ready. build-Ready v k n ss one r (inr ready.0) ready.1, builders-Good fs rs)

    elements-Good :
        (vs : Items)
        → AllDict vs
        → (es : List Element) × (elements_of text_of_container vs ≡ some es) × All IsGoodElement es
    elements-Good nil r = ([], refl, tt)
    elements-Good (cons v vs) (r, rs) =
        let (e, p, g) = element-Good v r in
        let (es, q, gs) = elements-Good vs rs in (e ∷ es, rw (p, q) refl, (g, gs))

    element-Good :
        (v : Value)
        → IsDict v
        → (e : Element) × (element_of_value text_of_container v ≡ some e) × IsGoodElement e
    element-Good (scalar text b) r = absurd r
    element-Good (arr xs) r = absurd r
    element-Good (obj fs) r = (
      element_of text_of_container fs (builders_of text_of_container fs),
      refl,
      fields-Good fs _ (builders-Good fs r) r,
    )

  module _ (round_scaled : ℕ → ℕ → ℕ → ℕ) (nearest : IsNearest round_scaled) where
    rendered :
        (terminal_width : ℕ) (ss : List Section)
        → Ready ss
        → (lines : List Str) × (render round_scaled plain terminal_width true ss ≡ done lines)
          × ((w : ℕ) × All (IsLine w) lines)
    rendered terminal_width [] (e, h) = absurd (e refl)
    rendered terminal_width (s ∷ ss) (e, h) =
        render-SameWidth round_scaled nearest terminal_width true s ss h

    -- A response in which each list is one of scalars or one of dictionaries, and no text has a line
    -- break, is laid out without an exception, at any width of the terminal, and what is written are
    -- lines that are equally long: the table's right edge is straight. The text of a list or of a
    -- dictionary, which Python escapes, has no line break either; what `round` gives is a nearest
    -- whole number; and the styler is the one without colours.
    pub format_response-SameWidth :
        (terminal_width : ℕ) (operation_name : Str) (response : Value)
        → OneLine operation_name
        → Regular response
        → (lines : List Str) × (format_response text_of_container round_scaled plain terminal_width
              operation_name response
            ≡ done lines)
          × ((w : ℕ) × All (IsLine w) lines)
    unfolding format_response
    format_response-SameWidth terminal_width operation_name response line r =
        elim (Bool-cases (truthy response)) [
          | inr empty ↦ ([], rw empty refl, (0, tt))
          | inl full ↦
              let (ss, e, made) = build-Ready response operation_name 0 [] line r (inl full) tt in
              let (lines, e', same) = rendered terminal_width ss made in
              (lines, rw full (rw e e'), same)
        ]
