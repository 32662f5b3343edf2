-- ===== src/Table/Formatter/Rows.antt =====
-- The rows of lists of dictionaries and of dictionaries, laid out by builders that raise nothing.
use m_awsexp.Common.{Str, ℕ, ◌+◌, Bool, true, false, List, [], ◌∷◌, some, All, arith}
use m_awsexp.Common.{◌≡◌, inl, inr, refl, length, lookup, Option-cases, str_eq, Bool-cases}
use m_awsexp.Table.Section.{Section, done}
use m_awsexp.Table.Formatter.Steps.{Current, Started, Leads, Ready, new_section-Started}
use m_awsexp.Table.Formatter.Steps.{Started-Ready, Current-Ready, add_row-Started, add_row-Current}
use m_awsexp.Table.Formatter.Steps.{add_header-Started, >>=-Leads}
use m_awsexp.Table.Formatter.{
  Builder, run_builders, next_section, element_row, element_rows, Element,
}
use m_awsexp.Table.Formatter.{build_sub_table_from_list, build_sub_table_from_dict, scalar_rows}
use m_awsexp.Common.{if_both, str_lt}
use m_awsexp.Table.Section.Columns.{OneLine, All-append}
use m_awsexp.Table.Formatter.{insert_key, text_or_empty, sorted_keys, keys_of_all}
use mathlib.Core.List.{map}
use mathlib.Core.Logic.{◌≢◌}
use mathlib.Core.Path.{subst}
use mathlib.Core.Option.{some-injective}

abbrev pub Good : Builder → Type 0
Good build = (indent_level : ℕ) (ss : List Section) → Ready ss → Leads Ready (build indent_level ss)

abbrev pub AllGood : List (Str × Builder) → Type 0
AllGood [] = Unit
AllGood ((k, build) ∷ builders) = Good build × AllGood builders

lookup-Good :
    (k : Str) (builders : List (Str × Builder)) (build : Builder)
    → AllGood builders
    → lookup k builders ≡ some build
    → Good build
unfolding lookup
lookup-Good k [] build g e = cc
lookup-Good k ((j, b) ∷ builders) build (g, gs) e = elim (Bool-cases (str_eq j k)) [
  | inl same ↦
      let found : some b ≡ some build = rw same at e in subst Good (some-injective b build found) g
  | inr other ↦ lookup-Good k builders build gs (rw other at e)
]

run_builders-Ready :
    (more : List Str) (indent_level : ℕ) (builders : List (Str × Builder)) (ss : List Section)
    → AllGood builders
    → Ready ss
    → Leads Ready (run_builders more indent_level builders ss)
unfolding run_builders
run_builders-Ready [] indent_level builders ss g r = (ss, refl, r)
run_builders-Ready (k ∷ more) indent_level builders ss g r =
    elim (Option-cases (lookup k builders)) [
      | inl missing ↦
          rw (missing, run_builders) (run_builders-Ready more indent_level builders ss g r)
      | inr (build, found) ↦
          rw (found, run_builders)
            (>>=-Leads Ready Ready (build indent_level ss) _
              (lookup-Good k builders build g found indent_level ss r)
              (λ ss' r'. run_builders-Ready more indent_level builders ss' g r'))
    ]

-- What the loop over the elements has before an element: the current section, if it is the first or
-- if there are no sections below the elements.
abbrev Waits : Bool → List Str → ℕ → List Section → Type 0
Waits true more n ss = Current n ss
Waits false [] n ss = Current n ss
Waits false (k ∷ more) n ss = Ready ss

Waits-Ready : (more : List Str) (n : ℕ) (ss : List Section) → Waits false more n ss → Ready ss
Waits-Ready [] n ss w = Current-Ready n ss w
Waits-Ready (k ∷ more) n ss w = w

text_or_empty-OneLine :
    (texts : List (Str × Str)) (k : Str)
    → All (λ kv. OneLine kv.1) texts
    → OneLine (text_or_empty texts k)
unfolding text_or_empty lookup
text_or_empty-OneLine [] k h = tt
text_or_empty-OneLine ((j, text) ∷ texts) k (h, hs) =
    let rest = text_or_empty-OneLine texts k hs in
    elim (Bool-cases (str_eq j k)) [
      | inl same ↦ rw (same, text_or_empty) h
      | inr other ↦ rw (other, text_or_empty) rest
    ]

row-OneLine :
    (texts : List (Str × Str)) (headers : List Str)
    → All (λ kv. OneLine kv.1) texts
    → All OneLine (map (text_or_empty texts) headers)
row-OneLine texts [] h = tt
row-OneLine texts (k ∷ ks) h = (text_or_empty-OneLine texts k h, row-OneLine texts ks h)

insert_key-OneLine :
    (k : Str) (ks : List Str) → OneLine k → All OneLine ks → All OneLine (insert_key k ks)
unfolding insert_key
insert_key-OneLine k [] h hs = (h, tt)
insert_key-OneLine k (j ∷ ks) h (i, is) =
    if_both (All OneLine) (str_eq k j) (i, is)
      (if_both (All OneLine) (str_lt k j) (h, (i, is)) (i, insert_key-OneLine k ks h is))

sorted_keys-OneLine : (ks : List Str) → All OneLine ks → All OneLine (sorted_keys ks)
unfolding sorted_keys
sorted_keys-OneLine [] h = tt
sorted_keys-OneLine (k ∷ ks) (h, hs) =
    insert_key-OneLine k (sorted_keys ks) h (sorted_keys-OneLine ks hs)

next_section-Current :
    (first : Bool) (headers more : List Str) (title : Str) (indent_level : ℕ) (ss : List Section)
    → OneLine title
    → All OneLine headers
    → Waits first more (length headers) ss
    → Leads
        (Current (length headers))
        (next_section first headers more (some title) indent_level ss)
unfolding next_section
next_section-Current true headers more title indent_level ss one ones w = (ss, refl, w)
next_section-Current false headers [] title indent_level ss one ones w = (ss, refl, w)
next_section-Current false headers (k ∷ more) title indent_level ss one ones w =
    add_header-Started headers _ ones (new_section-Started title indent_level ss one w.1)

run_builders-Waits :
    (more : List Str) (n indent_level : ℕ) (builders : List (Str × Builder)) (ss : List Section)
    → AllGood builders
    → Current n ss
    → Leads (Waits false more n) (run_builders more indent_level builders ss)
unfolding run_builders
run_builders-Waits [] n indent_level builders ss g c = (ss, refl, c)
run_builders-Waits (k ∷ more) n indent_level builders ss g c =
    run_builders-Ready (k ∷ more) indent_level builders ss g (Current-Ready n ss c)

-- A dictionary whose values are laid out.
pub record IsGoodElement (e : Element) : Type 0 where
  pub gets : e.has_get ≡ true
  pub builds : AllGood e.builders
  pub texts_lines : All (λ kv. OneLine kv.1) e.texts
  pub keys_lines : All OneLine e.scalars

length-map {ℓ κ} :
    {A : Type ℓ} {B : Type κ} (f : A → B) (xs : List A) → length (map f xs) ≡ length xs
length-map f [] = refl
length-map f (x ∷ xs) = rw (length-map f xs)

element_row_lem :
    (headers : List Str) (e : Element)
    → IsGoodElement e
    → element_row headers e ≡ done (map (text_or_empty e.texts) headers)
unfolding element_row
element_row_lem headers e good = ground (arith, good.gets)

element_rows-Ready :
    (first : Bool) (headers more : List Str) (title : Str) (indent_level : ℕ) (es : List Element)
    (ss : List Section)
    → OneLine title
    → All OneLine headers
    → All IsGoodElement es
    → Waits first more (length headers) ss
    → (first ≡ true → es ≢ [])
    → Leads Ready (element_rows first headers more (some title) indent_level es ss)
unfolding element_rows
element_rows-Ready true headers more title indent_level [] ss one ones g w h = absurd (h refl refl)
element_rows-Ready false headers more title indent_level [] ss one ones g w h =
    (ss, refl, Waits-Ready more (length headers) ss w)
element_rows-Ready first headers more title indent_level (e ∷ es) ss one ones (g, gs) w h =
    rw (element_row_lem headers e g) (
      >>=-Leads (Current (length headers)) Ready _ _
        (next_section-Current first headers more title indent_level ss one ones w)
        (λ ss1 c1.
          >>=-Leads (Current (length headers)) Ready _ _
            (add_row-Current (length headers) _ ss1 (row-OneLine e.texts headers g.texts_lines)
              (length-map _ headers) c1)
            (λ ss2 c2.
              >>=-Leads (Waits false more (length headers)) Ready _ _
                (run_builders-Waits more (length headers) (indent_level + 1) e.builders ss2 g.builds
                  c2)
                (λ ss3 w3.
                  element_rows-Ready false headers more title indent_level es ss3 one ones gs w3
                    (λ f. cc)))))

keys_of_all-OneLine :
    (es : List Element) → All IsGoodElement es → All OneLine (keys_of_all (λ e. e.scalars) es)
unfolding keys_of_all
keys_of_all-OneLine [] g = tt
keys_of_all-OneLine (e ∷ es) (g, gs) =
    All-append OneLine e.scalars _ g.keys_lines (keys_of_all-OneLine es gs)

pub build_from_list-Ready :
    (es : List Element) (title : Str) (indent_level : ℕ) (ss : List Section)
    → OneLine title
    → All IsGoodElement es
    → es ≢ []
    → Started ss
    → Leads Ready (build_sub_table_from_list es indent_level (some title) ss)
unfolding build_sub_table_from_list
build_from_list-Ready es title indent_level ss one g h st =
    let ones = sorted_keys-OneLine _ (keys_of_all-OneLine es g) in
    >>=-Leads (Current _) Ready _ _
      (add_header-Started (sorted_keys (keys_of_all (λ e. e.scalars) es)) ss ones st)
      (λ ss' c.
        element_rows-Ready true _ (sorted_keys (keys_of_all (λ e. e.others) es)) title indent_level
          es ss' one ones g c (λ _. h))

scalar_rows-Ready :
    (headers : List Str) (texts : List (Str × Str)) (ss : List Section)
    → All OneLine headers
    → All (λ kv. OneLine kv.1) texts
    → Started ss
    → Leads Ready (scalar_rows headers texts ss)
unfolding scalar_rows
scalar_rows-Ready [] texts ss ones lines st = (ss, refl, Started-Ready ss st)
scalar_rows-Ready (h ∷ []) texts ss (one, _) lines st =
    let (ss', e, c) =
      add_row-Started (h ∷ text_or_empty texts h ∷ []) ss
        (one, (text_or_empty-OneLine texts h lines, tt)) st in
    (ss', e, Current-Ready 2 ss' c)
scalar_rows-Ready (h ∷ i ∷ hs) texts ss ones lines st =
    >>=-Leads (Current (length (h ∷ i ∷ hs))) Ready _ _ (add_header-Started (h ∷ i ∷ hs) ss ones st)
      (λ ss' c.
        let (ss'', e, c') =
          add_row-Current (length (h ∷ i ∷ hs)) (map (text_or_empty texts) (h ∷ i ∷ hs)) ss'
            (row-OneLine texts (h ∷ i ∷ hs) lines) (length-map _ (h ∷ i ∷ hs)) c in
        (ss'', e, Current-Ready (length (h ∷ i ∷ hs)) ss'' c'))

pub build_from_dict-Ready :
    (e : Element) (indent_level : ℕ) (ss : List Section)
    → IsGoodElement e
    → Started ss
    → Leads Ready (build_sub_table_from_dict e indent_level ss)
unfolding build_sub_table_from_dict
build_from_dict-Ready e indent_level ss g st =
    >>=-Leads Ready Ready _ _
      (scalar_rows-Ready (sorted_keys e.scalars) e.texts ss
        (sorted_keys-OneLine e.scalars g.keys_lines) g.texts_lines st)
      (λ ss' r.
        run_builders-Ready (sorted_keys e.others) (indent_level + 1) e.builders ss' g.builds r)
