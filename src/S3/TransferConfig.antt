-- ===== src/S3/TransferConfig.antt =====
-- awscli/customizations/s3/transferconfig.py, and `human_readable_to_bytes` of utils.py. Letters and
-- digits are those of ASCII; a setting is an integer, a string or None.
use mathlib.Core.Option
use mathlib.Core.List.{map}
use m_awsexp.Common.Int.{ℤ, pos, sub_ℕ, ◌*ℤ◌, ltb_ℤ}
use m_awsexp.Configure.Line.{strip}
use m_awsexp.Common.{
  ℕ, if◌then◌else◌, Str, Option, str_eq, take, some, none, leb, drop, codes, ◌∷◌, ◌||◌, length,
  ◌&&◌, [], ◌-◌, ◌^◌, ◌+◌, ◌==◌, ◌*◌,
}

abbrev lower_char : ℕ → ℕ
lower_char c = if leb b'A' c && leb c b'Z' then c + 32 else c

-- value.lower()
abbrev pub lower : Str → Str
lower = map lower_char

-- The number of a string of digits behind those with the value `n`.
unfoldable pub digits_from : ℕ → Str → Option ℕ
digits_from n [] = some n
digits_from n (c ∷ s) =
    let rest = digits_from (10 * n + (c - b'0')) s in
    if leb b'0' c && leb c b'9' then rest else none

unfoldable pub parse_digits : Str → Option ℕ
unfolding digits_from
parse_digits [] = none
parse_digits (c ∷ s) = digits_from 0 (c ∷ s)

abbrev signed : Str → Option ℤ
signed [] = none
signed (c ∷ s) =
    let negative = Option.map (λ n. sub_ℕ 0 n) (parse_digits s) in
    let positive = Option.map pos (parse_digits s) in
    if c == b'-'
    then negative
    else if c == b'+'
    then positive
    else Option.map pos (parse_digits (c ∷ s))

-- int(value) of a string; `none` is a ValueError
unfoldable pub parse_int : Str → Option ℤ
unfolding parse_digits strip
parse_int value = signed (strip value)

-- SIZE_SUFFIX
unfoldable pub size_suffix : Str → Option ℕ
unfolding str_eq
size_suffix suffix =
    if str_eq suffix (codes "kb") || str_eq suffix (codes "kib")
    then some 1024
    else if str_eq suffix (codes "mb") || str_eq suffix (codes "mib")
    then some (1024 ^ 2)
    else if str_eq suffix (codes "gb") || str_eq suffix (codes "gib")
    then some (1024 ^ 3)
    else if str_eq suffix (codes "tb") || str_eq suffix (codes "tib")
    then some (1024 ^ 4)
    else none

-- value[-n:] and value[:-n]
abbrev pub last_of : ℕ → Str → Str
last_of n value = drop (length value - n) value

abbrev pub without_last : ℕ → Str → Str
without_last n value = take (length value - n) value

abbrev pub suffix_of : Str → Str
suffix_of value = if str_eq (last_of 2 value) (codes "ib") then last_of 3 value else last_of 2 value

-- human_readable_to_bytes; `none` is a ValueError
unfoldable pub human_readable_to_bytes : Str → Option ℤ
unfolding size_suffix parse_int str_eq
human_readable_to_bytes text =
    let value = lower text in
    let suffix = suffix_of value in
    let has_size = if leb 2 (length value) then size_suffix suffix else none in
    elim has_size [
      | none ↦ parse_int value
      | some multiplier ↦
          Option.map (λ n. n *ℤ pos multiplier) (parse_int (without_last (length suffix) value))
    ]

pub data Setting : Type 0 where
  integer : ℤ → Setting
  string : Str → Setting
  nothing : Setting

pub record Settings : Type 0 where
  pub multipart_threshold : Option Setting
  pub multipart_chunksize : Option Setting
  pub max_concurrent_requests : Option Setting
  pub max_queue_size : Option Setting

-- The dictionary that is built; `none` is None, which is neither converted nor checked.
pub record RuntimeConfig : Type 0 where
  pub multipart_threshold : Option ℤ
  pub multipart_chunksize : Option ℤ
  pub max_concurrent_requests : Option ℤ
  pub max_queue_size : Option ℤ

-- The merge with DEFAULTS, for one key.
abbrev pub setting_or : ℕ → Option Setting → Setting
setting_or default none = integer (pos default)
setting_or default (some setting) = setting

-- _convert_human_readable_sizes, for one key; `none` is a ValueError
unfoldable pub convert_size : Setting → Option Setting
unfolding human_readable_to_bytes
convert_size (integer n) = some (integer n)
convert_size (string value) = Option.map integer (human_readable_to_bytes value)
convert_size nothing = some nothing

-- int(value) of _validate_config; `none` is a ValueError
unfoldable pub int_of : Setting → Option (Option ℤ)
unfolding parse_int
int_of (integer n) = some (some n)
int_of (string value) = Option.map some (parse_int value)
int_of nothing = some none

-- _validate_config, for one key; `none` is an InvalidConfigError
unfoldable pub validated : Setting → Option (Option ℤ)
unfolding int_of
validated setting = elim (int_of setting) [
  | none ↦ none
  | some none ↦ some none
  | some (some n) ↦ if ltb_ℤ (pos 0) n then some (some n) else none
]

-- A size goes through both.
unfoldable pub validated_size : Setting → Option (Option ℤ)
unfolding convert_size validated
validated_size setting = elim (convert_size setting) [ none ↦ none | some s ↦ validated s ]

-- The dictionary with the four numbers, if none of them raised.
abbrev all_valid :
    Option (Option ℤ)
    → Option (Option ℤ)
    → Option (Option ℤ)
    → Option (Option ℤ)
    → Option RuntimeConfig
all_valid (some threshold) (some chunksize) (some requests) (some queue_size) = some (record {
  multipart_threshold = threshold;
  multipart_chunksize = chunksize;
  max_concurrent_requests = requests;
  max_queue_size = queue_size;
})
all_valid _ _ _ _ = none

-- build_config; `none` is a ValueError or an InvalidConfigError
unfoldable pub build_config : Settings → Option RuntimeConfig
unfolding validated validated_size
build_config kwargs =
    all_valid (validated_size (setting_or (8 * 1024 ^ 2) kwargs.multipart_threshold))
      (validated_size (setting_or (8 * 1024 ^ 2) kwargs.multipart_chunksize))
      (validated (setting_or 10 kwargs.max_concurrent_requests))
      (validated (setting_or 1000 kwargs.max_queue_size))
