-- ===== src/Value/Dict.antt =====
-- The operations of `dict` on `Fields`.
use curator_agent.Prelude.{
  String, Bool, true, false, Option, none, some, ◌==◌, ◌≡◌, refl, ap, eq_iff, arith, if◌then◌else◌,
}
use curator_agent.Value.Types.{Value, Fields, end, field}

-- `d.get(k)`, with `none` for a missing key
unfoldable pub get : String → Fields → Option Value
get k end = none
get k (field j v d) = if j == k then some v else get k d

-- `d[k] = v`
unfoldable pub set : String → Value → Fields → Fields
set k v end = field k v end
set k v (field j w d) = if j == k then field j v d else field j w (set k v d)

-- `k in d`
unfoldable pub has : String → Fields → Bool
has k end = false
has k (field j v d) = if j == k then true else has k d

-- `d.setdefault(k, v)`, as a statement
unfoldable pub set_default : String → Value → Fields → Fields
set_default k v d = if has k d then d else set k v d

-- `{**d, **e}`
unfoldable pub merge : Fields → Fields → Fields
merge d end = d
merge d (field k v e) = merge (set k v d) e

pub get-set :
    (k j : String) (v : Value) (d : Fields)
    → get j (set k v d) ≡ (if k == j then some v else get j d)
unfolding get set
get-set k j v end = refl
get-set k j v (field i w d) = ground (arith, eq_iff k j, eq_iff i k, eq_iff i j, get-set k j v d)

pub has-get : (k : String) (d : Fields) → has k d ≡ elim (get k d) [ none ↦ false | some _ ↦ true ]
unfolding get has
has-get k end = refl
has-get k (field j v d) = ground (arith, has-get k d)

pub get-set_default :
    (k j : String) (v : Value) (d : Fields)
    → get j (set_default k v d) ≡ (if has k d then get j d else if k == j then some v else get j d)
unfolding set_default
get-set_default k j v d = ground (arith, get-set k j v d)

-- No key occurs twice, as in a display.
abbrev pub AreDistinct : Fields → Type 0
AreDistinct end = Unit
AreDistinct (field k v d) = (has k d ≡ false) × AreDistinct d

has_cong : (k j : String) (d : Fields) → k ≡ j → has k d ≡ has j d
has_cong k j d e = ap (λ i. has i d) e

pub get-merge :
    (j : String) (d e : Fields)
    → AreDistinct e
    → get j (merge d e) ≡ (if has j e then get j e else get j d)
unfolding merge has get
get-merge j d end h = refl
get-merge j d (field k v e) h =
    ground (arith, get-merge j (set k v d) e h.1, get-set k j v d, eq_iff k j, has_cong k j e, h.0)
