-- ===== src/Value/Number.antt =====
-- The order of Python's numbers, exact between integers and floats, and its equality of values.
use curator_agent.Prelude.{
  ℕ, ◌+◌, ◌*◌, ◌^◌, Bool, true, false, Option, none, some, ◌==◌, ◌&&◌, leb, ltb, eqb, ◌≡◌, refl,
}
use curator_agent.Prelude.Int.{ℤ, pos, pos_part, neg_part}
use curator_agent.Value.Types.{
  Value, Items, Fields, Float, finite, infinity, minus_infinity, nan, null, bool, int, float, str,
  list, dict, nil, cons, end, field,
}
use curator_agent.Value.Dict.{get}

-- The two sides of the comparison of m / 2 ^ s with n / 2 ^ t, over a common scale and without signs.
abbrev left_side : ℤ → ℕ → ℤ → ℕ → ℕ
left_side m s n t = pos_part m * 2 ^ t + neg_part n * 2 ^ s

abbrev right_side : ℤ → ℕ → ℤ → ℕ → ℕ
right_side m s n t = pos_part n * 2 ^ s + neg_part m * 2 ^ t

-- a <= b, a < b and a == b: NaN is in no relation to any float.
unfoldable pub float_leb : Float → Float → Bool
float_leb (finite m s) (finite n t) = leb (left_side m s n t) (right_side m s n t)
float_leb (finite _ _) infinity = true
float_leb (finite _ _) minus_infinity = false
float_leb (finite _ _) nan = false
float_leb infinity (finite _ _) = false
float_leb infinity infinity = true
float_leb infinity minus_infinity = false
float_leb infinity nan = false
float_leb minus_infinity (finite _ _) = true
float_leb minus_infinity infinity = true
float_leb minus_infinity minus_infinity = true
float_leb minus_infinity nan = false
float_leb nan _ = false

unfoldable pub float_ltb : Float → Float → Bool
float_ltb (finite m s) (finite n t) = ltb (left_side m s n t) (right_side m s n t)
float_ltb (finite _ _) infinity = true
float_ltb (finite _ _) minus_infinity = false
float_ltb (finite _ _) nan = false
float_ltb infinity _ = false
float_ltb minus_infinity (finite _ _) = true
float_ltb minus_infinity infinity = true
float_ltb minus_infinity minus_infinity = false
float_ltb minus_infinity nan = false
float_ltb nan _ = false

unfoldable pub float_eqb : Float → Float → Bool
float_eqb (finite m s) (finite n t) = eqb (left_side m s n t) (right_side m s n t)
float_eqb infinity infinity = true
float_eqb minus_infinity minus_infinity = true
float_eqb _ _ = false

abbrev pub of_int : ℤ → Float
of_int n = finite n 0

abbrev pub of_nat : ℕ → Float
of_nat n = of_int (pos n)

-- The number that a value is; `bool` is a subclass of `int`.
abbrev pub to_number : Value → Option Float
to_number (bool true) = some (of_nat 1)
to_number (bool false) = some (of_nat 0)
to_number (int n) = some (of_int n)
to_number (float x) = some x
to_number _ = none

number_eq : Value → Value → Bool
unfolding float_eqb
number_eq v w = elim (to_number v) [
  | none ↦ false
  | some a ↦ elim (to_number w) [ none ↦ false | some b ↦ float_eqb a b ]
]

abbrev pub size : Fields → ℕ
size end = 0
size (field k v d) = size d + 1

-- `v == w`; the test of identity, by which a NaN in a list equals itself, is left out.
unfoldable mutual
  unfolding number_eq

  pub value_eq : Value → Value → Bool
  value_eq null null = true
  value_eq (str s) (str t) = s == t
  value_eq (list xs) (list ys) = items_eq xs ys
  value_eq (dict d) (dict e) = eqb (size d) (size e) && fields_in d e
  value_eq v w = number_eq v w

  pub items_eq : Items → Items → Bool
  items_eq nil nil = true
  items_eq (cons v xs) (cons w ys) = value_eq v w && items_eq xs ys
  items_eq _ _ = false

  -- Every entry of the first is in the second, with an equal value.
  pub fields_in : Fields → Fields → Bool
  fields_in end e = true
  fields_in (field k v d) e = elim (get k e) [
    | none ↦ false
    | some w ↦ value_eq v w && fields_in d e
  ]

-- 0.5 < 1, and True == 1.0
half_lt_one : float_ltb (finite (pos 1) 1) (of_nat 1) ≡ true
unfolding float_ltb
half_lt_one = refl
