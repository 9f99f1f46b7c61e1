-- ===== src/Prelude/Lists.antt =====
-- Lists measured by native numbers, and predicates on lists by recursion.
use Prim.Native.Nat.{ℕ, suc, ◌+◌, ◌≤◌}
use mathlib.Core.Path.{◌≡◌, refl, sym, subst}
use mathlib.Core.Bool.{Bool, true, false, ◌||◌}
use mathlib.Core.List.{List, [], ◌∷◌, ◌++◌}
use mathlib.Core.Option.{Option, none, some}
use mathlib.Core.List.{Memᴰ}
use native.Mathlib.Omega.{arith}
use curator_agent.Prelude.Tests.{if◌then◌else◌}

module _ {ℓ} {A : Type ℓ} where
  abbrev pub length : List A → ℕ
  length [] = 0
  length (x ∷ xs) = suc (length xs)

  pub length-append : (xs ys : List A) → length (xs ++ ys) ≡ length xs + length ys
  length-append [] ys = omega arith
  length-append (x ∷ xs) ys = omega (arith, length-append xs ys)

  -- `[x for x in xs if p(x)]`
  abbrev pub keep : (A → Bool) → List A → List A
  keep p [] = []
  keep p (x ∷ xs) = let rest = keep p xs in if p x then x ∷ rest else rest

  pub length-keep-le : (p : A → Bool) (xs : List A) → length (keep p xs) ≤ length xs
  length-keep-le p [] = omega arith
  length-keep-le p (x ∷ xs) = ground (arith, length-keep-le p xs)

  -- `any(p(x) for x in xs)`
  abbrev pub exists : (A → Bool) → List A → Bool
  exists p [] = false
  exists p (x ∷ xs) = p x || exists p xs

  -- `fetchone()` on a query: the first row that meets the condition.
  abbrev pub first : (A → Bool) → List A → Option A
  first p [] = none
  first p (x ∷ xs) = if p x then some x else first p xs

  pub first-holds : (p : A → Bool) (xs : List A) (x : A) → first p xs ≡ some x → p x ≡ true
  first-holds p (y ∷ ys) x h = ground (arith, first-holds p ys x)
  first-holds p [] x h = ground arith

module _ {ℓ κ} {A : Type ℓ} (P : A → Type κ) where
  abbrev pub All : List A → Type κ
  All [] = Unit
  All (x ∷ xs) = P x × All xs

  pub All-append : (xs ys : List A) → All xs → All ys → All (xs ++ ys)
  All-append [] ys _ k = k
  All-append (x ∷ xs) ys (p, h) k = (p, All-append xs ys h k)

  pub All-at : (xs : List A) (x : A) → All xs → Memᴰ x xs → P x
  All-at [] x h m = elim m [ ]
  All-at (y ∷ ys) x h (Memᴰ.head e) = subst P (sym e) h.0
  All-at (y ∷ ys) x h (Memᴰ.tail m) = All-at ys x h.1 m

  pub All-keep : (p : A → Bool) (xs : List A) → All xs → All (keep p xs)
  All-keep p [] h = tt
  All-keep p (x ∷ xs) h = keep_or_drop (p x) h.0 (All-keep p xs h.1)
    where
      keep_or_drop :
          (b : Bool) → P x → All (keep p xs) → All (if b then x ∷ keep p xs else keep p xs)
      keep_or_drop true q r = (q, r)
      keep_or_drop false q r = r

  pub All-first : (p : A → Bool) (xs : List A) (x : A) → All xs → first p xs ≡ some x → P x
  All-first p [] x _ h = absurd (ground arith)
  All-first p (y ∷ ys) x (q, a) h = ground (arith, All-first p ys x a)

module _ {ℓ} {A : Type ℓ} where
  pub exists_of_first-none : (p : A → Bool) (xs : List A) → first p xs ≡ none → exists p xs ≡ false
  exists_of_first-none p [] h = refl
  exists_of_first-none p (x ∷ xs) h = ground (arith, exists_of_first-none p xs)

  pub exists-append :
      (p : A → Bool) (xs ys : List A) → exists p (xs ++ ys) ≡ (exists p xs || exists p ys)
  exists-append p [] ys = refl
  exists-append p (x ∷ xs) ys = ground (arith, exists-append p xs ys)

  pub first-append :
      (p : A → Bool) (xs ys : List A)
      → first p (xs ++ ys) ≡ elim (first p xs) [ none ↦ first p ys | some x ↦ some x ]
  first-append p [] ys = refl
  first-append p (x ∷ xs) ys = ground (arith, first-append p xs ys)
