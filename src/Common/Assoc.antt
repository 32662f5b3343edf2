-- ===== src/Common/Assoc.antt =====
-- A dictionary as the list of its items, in their order.

use mathlib.Core.List.{List, [], ◌∷◌}
use mathlib.Core.Option.{Option, none, some}
use m_awsexp.Common.Tests.{if◌then◌else◌}
use m_awsexp.Common.Text.{Str, str_eq}

-- dict.get(key), and del dict[key]
unfoldable pub lookup {ℓ} : {A : Type ℓ} → Str → List (Str × A) → Option A
unfolding str_eq
lookup key [] = none
lookup key ((k, value) ∷ items) =
    let rest = lookup key items in if str_eq k key then some value else rest

unfoldable pub remove {ℓ} : {A : Type ℓ} → Str → List (Str × A) → List (Str × A)
unfolding str_eq
remove key [] = []
remove key ((k, value) ∷ items) =
    let rest = remove key items in if str_eq k key then items else (k, value) ∷ rest
