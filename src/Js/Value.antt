-- ===== src/Js/Value.antt =====
-- The values of JavaScript that the client takes from the network: those of JSON, and `undefined`.
-- An array is the object of its elements under the keys "0", "1" and so on. Properties that a value
-- inherits, such as the `length` of a string, are left out: reading one gives `undefined`.
use blockcore_gateway.Common.{ℕ, zero, String, Bool, true, false, not, str_eq, if◌then◌else◌}

-- `negsuc n` is -(n + 1).
pub data ℤ : Type 0 where
  pos : ℕ → ℤ
  negsuc : ℕ → ℤ

mutual
  -- `num m e` is the decimal m / 10 ^ e.
  pub data Value : Type 0 where
    undefined null : Value
    bool : Bool → Value
    num : ℤ → ℕ → Value
    str : String → Value
    obj : Fields → Value

  pub data Fields : Type 0 where
    end : Fields
    field : String → Value → Fields → Fields

abbrev is_zero : ℤ → Bool
is_zero (pos zero) = true
is_zero _ = false

-- What `if (v)` tests.
unfoldable pub truthy : Value → Bool
truthy undefined = false
truthy null = false
truthy (bool b) = b
truthy (num m e) = not (is_zero m)
truthy (str s) = not (str_eq s "")
truthy (obj fs) = true

-- A key that is written twice has its last value, as in `JSON.parse`.
unfoldable pub lookup : String → Fields → Value → Value
lookup k end found = found
lookup k (field j v fs) found = lookup k fs (if str_eq j k then v else found)

-- `v[k]` where `v` is neither `undefined` nor `null`.
unfoldable pub get : String → Value → Value
unfolding lookup
get k (obj fs) = lookup k fs undefined
get k _ = undefined
