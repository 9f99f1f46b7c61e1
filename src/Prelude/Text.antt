-- ===== src/Prelude/Text.antt =====
-- Python's text methods on the native texts: `endswith`, and `strip` and `lower` for the ASCII
-- blanks and letters.
use Prim.Native.Nat.{zero, suc, ℕ, ◌+◌, ◌-◌, ◌<◌, compare, Ordering}
use Prim.Native.Char.{Char, char, code, IsScalar}
use Prim.Native.String.{String, count, ◌++◌}
use mathlib.Core.Path.{◌≡◌, refl}
use mathlib.Core.Bool.{Bool, true, ◌||◌, ◌&&◌}
use mathlib.Core.Logic.{dite}
use native.Mathlib.Decide.{dec_lt}
use native.Mathlib.Omega.{arith}
use text.Mathlib.Text.{◌==◌}
use text.Mathlib.TextPositions.{eq_refl}
use text.Mathlib.TextLemmas.{cons-append, nil-append}
use curator_agent.Prelude.Tests.{leb, eqb, if◌then◌else◌}

-- `s.endswith(suffix)`
unfoldable pub ends_with : String → String → Bool
ends_with String.[] suffix = suffix == ""
ends_with (String.◌∷◌ c s) suffix = (String.◌∷◌ c s) == suffix || ends_with s suffix

pub ends_with_self : (t : String) → ends_with t t ≡ true
unfolding ends_with
ends_with_self String.[] = refl
ends_with_self (String.◌∷◌ c s) = rw (eq_refl (String.◌∷◌ c s))

or_true : (a b : Bool) → b ≡ true → (a || b) ≡ true
or_true a b h = ground arith

pub ends_with-append : (s t : String) → ends_with (s ++ t) t ≡ true
unfolding ends_with
ends_with-append String.[] t = rw nil-append (ends_with_self t)
ends_with-append (String.◌∷◌ c s) t = rw (cons-append c s t) (or_true _ _ (ends_with-append s t))

-- The blanks of ASCII: tab to carriage return, the four separators, and the space.
abbrev is_blank : Char → Bool
is_blank c =
    eqb (code c) 32 || (leb 9 (code c) && leb (code c) 13) || (leb 28 (code c) && leb (code c) 31)

strip_left : String → String
strip_left String.[] = ""
strip_left (String.◌∷◌ c s) = if is_blank c then strip_left s else String.◌∷◌ c s

strip_right : String → String
strip_right String.[] = ""
strip_right (String.◌∷◌ c s) =
    let rest = strip_right s in if is_blank c && rest == "" then "" else String.◌∷◌ c rest

-- `s.strip()`
unfoldable pub strip : String → String
unfolding strip_left strip_right
strip s = strip_right (strip_left s)

compare_below : (n : ℕ) → n < 123 → compare n 55296 ≡ Ordering.lt
compare_below n h = ground arith

-- The codes of ASCII are characters.
pub IsScalar-of_lt : (n : ℕ) → n < 123 → IsScalar n
IsScalar-of_lt n h = rw (compare_below n h) tt

lower_char : Char → Char
unfolding dec_lt
lower_char (char n p) =
    dite (dec_lt 64 n)
      (λ _.
        dite (dec_lt n 91) (λ h. char (n + 32) (IsScalar-of_lt (n + 32) (omega arith)))
          (λ _. char n p))
      (λ _. char n p)

-- `s.lower()`
unfoldable pub lower : String → String
unfolding lower_char
lower String.[] = ""
lower (String.◌∷◌ c s) = String.◌∷◌ (lower_char c) (lower s)

upper_char : Char → Char
unfolding dec_lt
upper_char (char n p) =
    dite (dec_lt 96 n)
      (λ _.
        dite (dec_lt n 123) (λ h. char (n - 32) (IsScalar-of_lt (n - 32) (omega arith)))
          (λ _. char n p))
      (λ _. char n p)

-- `s.upper()`
unfoldable pub upper : String → String
unfolding upper_char
upper String.[] = ""
upper (String.◌∷◌ c s) = String.◌∷◌ (upper_char c) (upper s)

-- `s.encode("ascii", errors="ignore")`
unfoldable pub ascii_part : String → String
ascii_part String.[] = ""
ascii_part (String.◌∷◌ c s) =
    let rest = ascii_part s in if leb (code c) 127 then String.◌∷◌ c rest else rest

-- Every character passes the test.
abbrev pub all_chars : (ℕ → Bool) → String → Bool
all_chars p String.[] = true
all_chars p (String.◌∷◌ c s) = p (code c) && all_chars p s

-- `s[:n]`
unfoldable pub first_chars : ℕ → String → String
first_chars zero s = ""
first_chars (suc n) String.[] = ""
first_chars (suc n) (String.◌∷◌ c s) = String.◌∷◌ c (first_chars n s)

drop_chars : ℕ → String → String
drop_chars zero s = s
drop_chars (suc n) String.[] = ""
drop_chars (suc n) (String.◌∷◌ c s) = drop_chars n s

-- `s[-n:]`, for a positive `n`
unfoldable pub last_chars : ℕ → String → String
unfolding drop_chars
last_chars n s = drop_chars (count s - n) s

last_two : last_chars 2 "a→c" ≡ "→c"
unfolding last_chars
last_two = refl

lower_true : lower (strip "  TruE ") ≡ "true"
unfolding lower strip
lower_true = refl
