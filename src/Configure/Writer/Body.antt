-- ===== src/Configure/Writer/Body.antt =====
-- The last option of a section, below which new values go.
use mathlib.Core.List.{append_assoc}
use m_awsexp.Common.{
  ℕ, List, Str, length, All, ◌++◌, suc, ◌∷◌, ◌≡◌, ◌+◌, arith, some, inl, [], refl, ◌∙◌, sym,
  length-append, inr, ap, Option-cases,
}
use m_awsexp.Configure.Writer.Loop.{last_option, Plain, Passes, Other, update_from-Passes}
use m_awsexp.Configure.Writer.{Items, update_from, insert_line}
use m_awsexp.Configure.Line.{option_match}

last_option-Plain :
    (plain : List Str) (j last : ℕ) → All Plain plain → last_option plain j last ≡ last
unfolding last_option
last_option-Plain [] j last h = refl
last_option-Plain (l ∷ ls) j last (k, h) =
    rw (last_option, k.0) (last_option-Plain ls (suc j) last h)

last_option-append :
    (others : List Str) (option : Str) (plain : List Str) (j last : ℕ) (group : Str)
    → option_match option ≡ some group
    → All Plain plain
    → last_option (others ++ option ∷ plain) j last ≡ j + length others
unfolding last_option
last_option-append [] option plain j last group h k =
    let e : j + 0 ≡ j = omega arith in rw (last_option, h, e) (last_option-Plain plain (suc j) j k)
last_option-append (l ∷ ls) option plain j last group h k =
    let e : j + suc (length ls) ≡ suc j + length ls = omega arith in
    elim (Option-cases (option_match l)) [
      | inl no_option ↦
          rw (e, last_option, no_option) (last_option-append ls option plain (suc j) last group h k)
      | inr (g, other) ↦
          rw (e, last_option, other) (last_option-append ls option plain (suc j) j group h k)
    ]

All-Plain :
    (new_values : Items) (plain : List Str) → All Plain plain → All (Passes new_values) plain
All-Plain new_values [] h = tt
All-Plain new_values (l ∷ ls) (h, hs) = (inl h, All-Plain new_values ls hs)

All-Passes-append :
    (new_values : Items) (others : List Str) (option : Str) (plain : List Str)
    → All (Passes new_values) others
    → Other new_values option
    → All Plain plain
    → All (Passes new_values) (others ++ option ∷ plain)
All-Passes-append new_values [] option plain h o k = (inr o, All-Plain new_values plain k)
All-Passes-append new_values (l ∷ ls) option plain (h, hs) o k =
    (h, All-Passes-append new_values ls option plain hs o k)

pub insert_line_below :
    (pre : List Str) (k : ℕ) (new : Str) (post : List Str)
    → insert_line (length pre + k) new (pre ++ post) ≡ pre ++ insert_line k new post
insert_line_below [] k new post = let e : 0 + k ≡ k = omega arith in rw e
insert_line_below (l ∷ pre) k new post =
    let e : suc (length pre) + k ≡ suc (length pre + k) = omega arith in
    rw e (ap (◌∷◌ l) (insert_line_below pre k new post))

-- The body of a section, up to its last option and the plain lines below it.
abbrev pub Body : Items → List Str → Str → List Str → Type 0
Body new_values others option plain =
    All (Passes new_values) others × Other new_values option × All Plain plain

pub update_from-Body :
    (new_values : Items) (others : List Str) (option : Str) (plain after : List Str) (j : ℕ)
    (contents : List Str)
    → Body new_values others option plain
    → (k : ℕ) × (update_from ((others ++ option ∷ plain) ++ after) j j contents new_values
        ≡ update_from after k (j + length others) contents new_values)
update_from-Body new_values others option plain after j contents (h, (group, o, other), p) =
    let passes = All-Passes-append new_values others option plain h (group, o, other) p in
    let place = last_option-append others option plain j j group o p in
    (
      j + length (others ++ option ∷ plain),
      update_from-Passes (others ++ option ∷ plain) after j j contents new_values passes
          ∙ ap
              (λ n. update_from after (j + length (others ++ option ∷ plain)) n contents new_values)
              place,
    )

above-append :
    (before : List Str) (header : Str) (others : List Str) (option : Str) (rest : List Str)
    → before ++ header ∷ (others ++ option ∷ rest)
      ≡ (before ++ header ∷ (others ++ option ∷ [])) ++ rest
above-append before header others option rest =
    ap (λ ls. before ++ header ∷ ls) (sym (append_assoc others (option ∷ []) rest))
    ∙ sym (append_assoc before (header ∷ (others ++ option ∷ [])) rest)

length-above :
    (before : List Str) (header : Str) (others : List Str) (option : Str)
    → length (before ++ header ∷ (others ++ option ∷ []))
      ≡ suc (suc (length before) + length others)
length-above before header others option = omega (
  arith,
  length-append before (header ∷ (others ++ option ∷ [])),
  length-append others (option ∷ []),
)

-- An insertion below the last option.
pub insert_line-Body :
    (before : List Str) (header : Str) (others : List Str) (option : Str) (plain after : List Str)
    (k : ℕ) (new : Str)
    → insert_line
        (suc (suc (length before) + length others) + k)
        new
        (before ++ header ∷ ((others ++ option ∷ plain) ++ after))
      ≡ before ++ header ∷ (others ++ option ∷ insert_line k new (plain ++ after))
insert_line-Body before header others option plain after k new =
    let pre = before ++ header ∷ (others ++ option ∷ []) in
    rw
      (
        append_assoc others (option ∷ plain) after,
        above-append before header others option (plain ++ after),
        above-append before header others option (insert_line k new (plain ++ after)),
        sym (length-above before header others option),
      )
      (insert_line_below pre k new (plain ++ after))
