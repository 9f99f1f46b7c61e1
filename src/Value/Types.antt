-- ===== src/Value/Types.antt =====
-- The values and their truth.
use curator_agent.Prelude.{ℕ, String, Bool, true, false, not, ◌==◌, eqb}
use curator_agent.Prelude.Int.{ℤ, pos, negsuc}

-- `finite m s` is m / 2 ^ s.
pub data Float : Type 0 where
  finite : ℤ → ℕ → Float
  infinity : Float
  minus_infinity : Float
  nan : Float

-- What `float(value)` does: a float, a `TypeError` or a `ValueError`, or an `OverflowError`.
pub data Conversion : Type 0 where
  converted : Float → Conversion
  not_a_number : Conversion
  overflow : Conversion

mutual
  pub data Value : Type 0 where
    null : Value
    bool : Bool → Value
    int : ℤ → Value
    float : Float → Value
    str : String → Value
    list : Items → Value
    dict : Fields → Value

  pub data Items : Type 0 where
    nil : Items
    cons : Value → Items → Items

  pub data Fields : Type 0 where
    end : Fields
    field : String → Value → Fields → Fields

abbrev pub is_zero : ℤ → Bool
is_zero (pos n) = eqb n 0
is_zero (negsuc _) = false

abbrev pub is_zero_float : Float → Bool
is_zero_float (finite m _) = is_zero m
is_zero_float infinity = false
is_zero_float minus_infinity = false
is_zero_float nan = false

-- `bool(value)`
abbrev pub truthy : Value → Bool
truthy null = false
truthy (bool b) = b
truthy (int n) = not (is_zero n)
truthy (float x) = not (is_zero_float x)
truthy (str s) = not (s == "")
truthy (list nil) = false
truthy (list (cons _ _)) = true
truthy (dict end) = false
truthy (dict (field _ _ _)) = true
