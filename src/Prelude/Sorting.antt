-- ===== src/Prelude/Sorting.antt =====
-- `sorted`: a stable sort by a test, and the order of texts by code points.
use Prim.Native.Nat.{Ordering}
use Prim.Native.String.{String, compare}
use mathlib.Core.Path.{◌≡◌, refl, ap, ◌∙◌}
use mathlib.Core.Bool.{Bool, true, false, ◌||◌}
use mathlib.Core.Logic.{inl, inr}
use mathlib.Core.List.{List, [], ◌∷◌}
use native.Mathlib.Omega.{arith}
use text.Mathlib.Text.{◌==◌}
use curator_agent.Prelude.Tests.{if◌then◌else◌, Bool-cases}
use curator_agent.Prelude.Lists.{exists, All, length}

-- s <= t
abbrev pub str_leb : String → String → Bool
str_leb s t = elim (compare s t) [ Ordering.gt ↦ false | _ ↦ true ]

-- The items of a set: each text once
abbrev pub distinct : List String → List String
distinct [] = []
distinct (s ∷ ss) = let rest = distinct ss in if exists (λ t. s == t) ss then rest else s ∷ rest

module _ {A : Type 0} (before : A → A → Bool) where
  unfoldable pub place_by : A → List A → List A
  place_by x [] = x ∷ []
  place_by x (y ∷ ys) = let rest = place_by x ys in if before x y then x ∷ y ∷ ys else y ∷ rest

  unfoldable pub sort_by : List A → List A
  sort_by [] = []
  sort_by (x ∷ xs) = place_by x (sort_by xs)

  exists-place_by :
      (p : A → Bool) (x : A) (xs : List A) → exists p (place_by x xs) ≡ exists p (x ∷ xs)
  unfolding place_by
  exists-place_by p x [] = refl
  exists-place_by p x (y ∷ ys) = ground (arith, exists-place_by p x ys)

  -- What a list holds, its sorted list holds.
  pub exists-sort_by : (p : A → Bool) (xs : List A) → exists p (sort_by xs) ≡ exists p xs
  unfolding sort_by
  exists-sort_by p [] = refl
  exists-sort_by p (x ∷ xs) =
      exists-place_by p x (sort_by xs) ∙ ap (λ b. p x || b) (exists-sort_by p xs)

  All-place_by : (P : A → Type 0) (x : A) (xs : List A) → P x → All P xs → All P (place_by x xs)
  unfolding place_by
  All-place_by P x [] h k = (h, tt)
  All-place_by P x (y ∷ ys) h k = elim (Bool-cases (before x y)) [
    | inl first ↦ rw first (h, (k.0, k.1))
    | inr later ↦ rw later (k.0, All-place_by P x ys h k.1)
  ]

  pub All-sort_by : (P : A → Type 0) (xs : List A) → All P xs → All P (sort_by xs)
  unfolding sort_by
  All-sort_by P [] h = tt
  All-sort_by P (x ∷ xs) h = All-place_by P x (sort_by xs) h.0 (All-sort_by P xs h.1)

  length-place_by : (x : A) (xs : List A) → length (place_by x xs) ≡ length (x ∷ xs)
  unfolding place_by
  length-place_by x [] = refl
  length-place_by x (y ∷ ys) = ground (arith, length-place_by x ys)

  pub length-sort_by : (xs : List A) → length (sort_by xs) ≡ length xs
  unfolding sort_by
  length-sort_by [] = refl
  length-sort_by (x ∷ xs) = ground (arith, length-place_by x (sort_by xs), length-sort_by xs)

abc : sort_by str_leb ("b" ∷ "c" ∷ "a" ∷ "" ∷ []) ≡ "" ∷ "a" ∷ "b" ∷ "c" ∷ []
unfolding sort_by place_by
abc = refl
