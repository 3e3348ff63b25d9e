-- ===== src/Core/Unknown.antt =====
-- A value that the program types `unknown`: what a request body or an office file holds.
use virtual_office.Prelude.{ℕ, Bool, Text, str_eq, if◌then◌else◌}

-- A number: a natural one, or any other (negative, fractional, NaN, infinite).
pub data Number : Type 0 where
  nat : ℕ → Number
  other : Number

mutual
  pub data Value : Type 0 where
    undefined null : Value
    bool : Bool → Value
    str : Text → Value
    num : Number → Value
    arr : Values → Value
    obj : Fields → Value

  pub data Values : Type 0 where
    nil : Values
    cons : Value → Values → Values

  pub data Fields : Type 0 where
    end : Fields
    field : Text → Value → Fields → Fields

-- `raw[key]`, undefined where the key is missing.
unfoldable pub get : Fields → Text → Value
get end key = undefined
get (field k v fs) key = if str_eq k key then v else get fs key

-- `value ?? fallback`
unfoldable pub or_value : Value → Value → Value
or_value undefined fallback = fallback
or_value null fallback = fallback
or_value value fallback = value
