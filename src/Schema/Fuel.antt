-- ===== src/Schema/Fuel.antt =====
-- The calls for the parts of a schema end: its depth is fuel enough, and more changes nothing.

use Prim.Native.String.{◌++◌ as str_append}
use curator_agent.Prelude.{
  ℕ, zero, suc, ◌≡◌, ◌≤◌, ◌<◌, refl, String, some, List, ◌++◌, arith, subst, ◌==◌, Bool-cases,
  Option-cases, inl, inr,
}
use mathlib.Core.Option.{some-injective}
use mathlib.Core.Path.{ap₂}
use curator_agent.Value.{
  Value, Items, Fields, null, bool, int, float, str, list, dict, nil, cons, end, field, truthy,
}
use curator_agent.Value.Dict.{get}
use curator_agent.Schema.{
  depth, depth_fields, dict_of, get_dict, properties_of, property_errors, item_errors, value_errors,
  errors_by, validate,
}

depth-head : (k : String) (v : Value) (d : Fields) → depth v ≤ depth_fields (field k v d)
unfolding depth
depth-head k v d = omega arith

depth-tail : (k : String) (v : Value) (d : Fields) → depth_fields d ≤ depth_fields (field k v d)
unfolding depth
depth-tail k v d = omega arith

-- A value of a dictionary is no deeper than its values together.
depth-get : (k : String) (d : Fields) (v : Value) → get k d ≡ some v → depth v ≤ depth_fields d
unfolding get
depth-get k end v h = absurd (cc h)
depth-get k (field j w d) v h = elim (Bool-cases (j == k)) [
  | inl e ↦
      let same : w ≡ v = ground arith in
      subst (λ x. depth x ≤ depth_fields (field j w d)) same (depth-head j w d)
  | inr e ↦
      let found : get k d ≡ some v = ground arith in
      omega (arith, depth-get k d v found, depth-tail j w d)
]

depth-dict_of : (v : Value) (e : Fields) → dict_of v ≡ some e → depth_fields e < depth v
unfolding depth
depth-dict_of (dict d) e h =
    let same : d ≡ e = some-injective d e h in
    subst (λ x. depth_fields x < suc (depth_fields d)) same (omega arith)
depth-dict_of null e h = absurd (cc h)
depth-dict_of (bool _) e h = absurd (cc h)
depth-dict_of (int _) e h = absurd (cc h)
depth-dict_of (float _) e h = absurd (cc h)
depth-dict_of (str _) e h = absurd (cc h)
depth-dict_of (list _) e h = absurd (cc h)

depth-get_dict :
    (k : String) (d e : Fields) → get_dict k d ≡ some e → depth_fields e < depth_fields d
depth-get_dict k d e h = elim (Option-cases (get k d)) [
  | inl missing ↦ absurd (ground arith)
  | inr (v, found) ↦
      let parsed : dict_of v ≡ some e = ground arith in
      omega (arith, depth-get k d v found, depth-dict_of v e parsed)
]

depth-end : depth_fields end ≡ 0
unfolding depth
depth-end = refl

depth-properties : (d e : Fields) → properties_of d ≡ some e → depth_fields e ≤ depth_fields d
unfolding properties_of
depth-properties d e h = elim (Option-cases (get "properties" d)) [
  | inl missing ↦
      let same : end ≡ e = ground arith in
      subst (λ x. depth_fields x ≤ depth_fields d) same (omega (arith, depth-end))
  | inr (v, found) ↦ elim (Bool-cases (truthy v)) [
    | inl given ↦
        let parsed : dict_of v ≡ some e = ground arith in
        omega (arith, depth-get "properties" d v found, depth-dict_of v e parsed)
    | inr empty ↦
        let same : end ≡ e = ground arith in
        subst (λ x. depth_fields x ≤ depth_fields d) same (omega (arith, depth-end))
  ]
]

module _ (str_value : Value → String) (bound : ℕ) (f g : Value → Fields → String → List String)
    (agree : (v : Value) (child : Fields) (p : String)
      → depth_fields child < bound
      → f v child p ≡ g v child p) where
  property_agree :
      (value properties : Fields) (path : String)
      → depth_fields properties ≤ bound
      → property_errors str_value f value properties path
        ≡ property_errors str_value g value properties path
  unfolding property_errors depth
  property_agree value end path h = refl
  property_agree value (field key (dict child) properties) path h =
      elim (Option-cases (get key value)) [
        | inl e ↦ ground (arith, property_agree value properties path (omega arith))
        | inr (v, e) ↦ ground (
          arith,
          agree v child (str_append path (str_append "." key)) (omega arith),
          property_agree value properties path (omega arith),
        )
      ]
  property_agree value (field key null properties) path h =
      property_agree value properties path (omega arith)
  property_agree value (field key (bool _) properties) path h =
      property_agree value properties path (omega arith)
  property_agree value (field key (int _) properties) path h =
      property_agree value properties path (omega arith)
  property_agree value (field key (float _) properties) path h =
      property_agree value properties path (omega arith)
  property_agree value (field key (str _) properties) path h =
      property_agree value properties path (omega arith)
  property_agree value (field key (list _) properties) path h =
      property_agree value properties path (omega arith)

  item_agree :
      (xs : Items) (child : Fields) (index : ℕ) (path : String)
      → depth_fields child < bound
      → item_errors str_value f xs child index path ≡ item_errors str_value g xs child index path
  unfolding item_errors
  item_agree nil child index path h = refl
  item_agree (cons v xs) child index path h =
      ap₂ ◌++◌ (agree v child _ h) (item_agree xs child (suc index) path h)

  value_agree :
      (v : Value) (schema : Fields) (path : String)
      → depth_fields schema ≤ bound
      → value_errors str_value f v schema path ≡ value_errors str_value g v schema path
  unfolding value_errors
  value_agree (dict d) schema path h = elim (Option-cases (properties_of schema)) [
    | inl e ↦ ground arith
    | inr (p, e) ↦
        ground (arith, property_agree d p path (omega (arith, depth-properties schema p e)))
  ]
  value_agree (list xs) schema path h = elim (Option-cases (get_dict "items" schema)) [
    | inl e ↦ ground arith
    | inr (child, e) ↦
        ground
          (arith, item_agree xs child 0 path (omega (arith, depth-get_dict "items" schema child e)))
  ]
  value_agree (str s) schema path h = refl
  value_agree (int n) schema path h = refl
  value_agree (float x) schema path h = refl
  value_agree null schema path h = refl
  value_agree (bool _) schema path h = refl

  errors_agree :
      (v : Value) (schema : Fields) (path : String)
      → depth_fields schema ≤ bound
      → errors_by str_value f v schema path ≡ errors_by str_value g v schema path
  unfolding errors_by
  errors_agree v schema path h = ground (arith, value_agree v schema path)

-- Any two amounts of fuel above the depth of the schema give the same errors.
pub validate_fuel :
    (str_value : Value → String) (n m : ℕ) (value : Value) (schema : Fields) (path : String)
    → depth_fields schema < n
    → depth_fields schema < m
    → validate str_value n value schema path ≡ validate str_value m value schema path
unfolding validate
validate_fuel str_value zero m value schema path h k = absurd (omega arith)
validate_fuel str_value (suc n) zero value schema path h k = absurd (omega arith)
validate_fuel str_value (suc n) (suc m) value end path h k = refl
validate_fuel str_value (suc n) (suc m) value (field j v d) path h k =
    errors_agree str_value (depth_fields (field j v d)) (validate str_value n)
      (validate str_value m)
      (λ w child p small. validate_fuel str_value n m w child p (omega arith) (omega arith)) value
      (field j v d) path (omega arith)
