-- ===== src/Intelligence/Unreadable.antt =====
-- The numbers that app/performance_intelligence.py reads without an answer to their conversion:
-- `float()` raises an `OverflowError`, and `int()` an exception on NaN and on the infinities.
use curator_agent.Prelude.{
  String, Bool, true, false, Option, none, some, List, [], ◌∷◌, ◌≡◌, ◌⊎◌, refl, inl, inr, arith,
  Bool-cases, Result-cases, ok, raise, Memᴰ,
}
use curator_agent.Value.{
  Value, Fields, Float, finite, infinity, minus_infinity, nan, Conversion, converted, not_a_number,
  overflow,
}
use curator_agent.Sandbox.Fallback.{get_or_none}
use curator_agent.Intelligence.{
  Arithmetic, ConversionError, is_skipped, count_of, first_number, sample_size_of, sample_keys,
}

abbrev pub is_finite : Float → Bool
is_finite (finite _ _) = true
is_finite infinity = false
is_finite minus_infinity = false
is_finite nan = false

pub Conversion-cases :
    (c : Conversion) → ((x : Float) × (c ≡ converted x)) ⊎ ((c ≡ not_a_number) ⊎ (c ≡ overflow))
Conversion-cases (converted x) = inl (x, refl)
Conversion-cases not_a_number = inr (inl refl)
Conversion-cases overflow = inr (inr refl)

module _ (a : Arithmetic) where
  -- One of the keys has a number that is too large for a float.
  abbrev pub IsTooLarge : Fields → List String → Type 0
  IsTooLarge performance keys =
      (key : String) × Memᴰ key keys × (a.to_float (get_or_none key performance) ≡ overflow)

  -- One of the keys of the sample size has NaN or an infinity.
  abbrev pub HasNoSize : Fields → Type 0
  HasNoSize performance =
      (key : String) × (x : Float) × Memᴰ key sample_keys
      × (a.to_float (get_or_none key performance) ≡ converted x)
      × (is_finite x ≡ false)

  -- A number that is read has no answer to its conversion: the given confidence, or a measure with one
  -- of the keys, is too large for a float, or the sample size is NaN or an infinity.
  abbrev pub IsUnreadable : List String → Value → Fields → Type 0
  IsUnreadable keys confidence performance =
      (a.to_float confidence ≡ overflow) ⊎ (IsTooLarge performance keys ⊎ HasNoSize performance)

  module _ (p : Fields) where
    -- Where the value of the first key decides.
    skipped :
        (key : String) (keys : List String)
        → is_skipped (get_or_none key p) ≡ true
        → first_number a p (key ∷ keys) ≡ first_number a p keys
    unfolding first_number
    skipped key keys h = ground arith

    no_number :
        (key : String) (keys : List String)
        → is_skipped (get_or_none key p) ≡ false
        → a.to_float (get_or_none key p) ≡ not_a_number
        → first_number a p (key ∷ keys) ≡ first_number a p keys
    unfolding first_number
    no_number key keys h k = ground arith

    pub first_number-raise :
        (keys : List String) (e : ConversionError)
        → first_number a p keys ≡ raise e
        → IsTooLarge p keys
    first_number-raise [] e h = unfold first_number in absurd (ground (arith, h))
    first_number-raise (key ∷ keys) e h = elim (Bool-cases (is_skipped (get_or_none key p))) [
      | inl skip ↦
          let (k, m, o) = first_number-raise keys e (ground (arith, skipped key keys skip)) in
          (k, Memᴰ.tail m, o)
      | inr taken ↦ elim (Conversion-cases (a.to_float (get_or_none key p))) [
        | inl (x, number) ↦ unfold first_number in absurd (ground (arith, h))
        | inr (inl text) ↦
            let (k, m, o) =
              first_number-raise keys e (ground (arith, no_number key keys taken text)) in
            (k, Memᴰ.tail m, o)
        | inr (inr large) ↦ (key, Memᴰ.head refl, large)
      ]
    ]

    first_number-some :
        (keys : List String) (x : Float)
        → first_number a p keys ≡ ok (some x)
        → (key : String) × Memᴰ key keys × (a.to_float (get_or_none key p) ≡ converted x)
    first_number-some [] x h = unfold first_number in absurd (ground (arith, h))
    first_number-some (key ∷ keys) x h = elim (Bool-cases (is_skipped (get_or_none key p))) [
      | inl skip ↦
          let (k, m, o) = first_number-some keys x (ground (arith, skipped key keys skip)) in
          (k, Memᴰ.tail m, o)
      | inr taken ↦ elim (Conversion-cases (a.to_float (get_or_none key p))) [
        | inl (y, e) ↦ (key, Memᴰ.head refl, unfold first_number in ground (arith, h))
        | inr (inl e) ↦
            let (k, m, o) = first_number-some keys x (ground (arith, no_number key keys taken e)) in
            (k, Memᴰ.tail m, o)
        | inr (inr large) ↦ unfold first_number in absurd (ground (arith, h))
      ]
    ]

    count_of-raise :
        (x : Option Float) (e : ConversionError)
        → count_of x ≡ raise e
        → (y : Float) × (x ≡ some y) × (is_finite y ≡ false)
    unfolding count_of
    count_of-raise none e h = absurd (ground (arith, h))
    count_of-raise (some (finite m s)) e h = absurd (ground (arith, h))
    count_of-raise (some infinity) e h = (infinity, refl, refl)
    count_of-raise (some minus_infinity) e h = (minus_infinity, refl, refl)
    count_of-raise (some nan) e h = (nan, refl, refl)

    pub sample_size_of-raise :
        (e : ConversionError)
        → sample_size_of a p ≡ raise e
        → IsTooLarge p sample_keys ⊎ HasNoSize p
    unfolding sample_size_of
    sample_size_of-raise e h = elim (Result-cases (first_number a p sample_keys)) [
      | inr (e', failed) ↦ inl (first_number-raise sample_keys e' failed)
      | inl (x, read) ↦
          let (y, same, wrong) = count_of-raise x e (ground arith) in
          let (key, m, c) = first_number-some sample_keys y (ground arith) in
          inr (key, y, m, c, wrong)
    ]
