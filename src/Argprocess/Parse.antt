-- ===== src/Argprocess/Parse.antt =====
-- What a parser of arguments returns: a value, or the exception that it raises.
use m_awsexp.Common.{Str, List, ◌≡◌, refl}

pub data Fault : Type 0 where
  param_syntax : Fault
  unknown_key : Str → List Str → Fault
  param_error : Fault
  value_error : Fault
  attribute_error : Fault
  index_error : Fault
  csv_error : Fault
  -- not an exception: the fuel of the model
  spent : Fault

pub data Parse {ℓ} (A : Type ℓ) : Type ℓ where
  ok : A → Parse A
  err : Fault → Parse A

-- A fault ends the chain.
infixl 5 ◌>>=◌
abbrev pub ◌>>=◌ {ℓ κ} :
    {Read : Type ℓ} {Made : Type κ} → Parse Read → (Read → Parse Made) → Parse Made
err fault >>= continue = err fault
ok read >>= continue = continue read

pub ok-injective {ℓ} : {A : Type ℓ} {a b : A} → ok a ≡ ok b → a ≡ b
ok-injective h = cc

-- A chain that made a value has read one before, with which it went on.
pub >>=-eq-ok {ℓ κ} :
    {Read : Type ℓ} {Made : Type κ} (parse : Parse Read) (continue : Read → Parse Made)
    {made : Made}
    → (parse >>= continue) ≡ ok made
    → (read : Read) × (parse ≡ ok read) × (continue read ≡ ok made)
>>=-eq-ok (err fault) continue chain = cc
>>=-eq-ok (ok read) continue chain = (read, refl, chain)
