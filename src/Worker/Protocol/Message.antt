-- ===== src/Worker/Protocol/Message.antt =====
-- The signed message determines every field that it is built from.
use Prim.Native.Char.{Char, code}
use Prim.Native.String.{◌++◌}
use text.Mathlib.TextLemmas.{cons-append, nil-append, cons-eq-cons, append_cancel_left}
use curator_agent.Prelude.{String, Bool, true, false, not, ◌≡◌, refl, eqb, arith, ap, sym, ◌∙◌}
use curator_agent.Prelude.Text.{upper, all_chars}
use curator_agent.Worker.Protocol.{Signed, signature_message}

-- A text without a line break.
abbrev pub is_line : String → Bool
is_line = all_chars (λ c. not (eqb c 10))

pub record IsOneLine (s : Signed) : Type 0 where
  pub method : is_line (upper s.method) ≡ true
  pub path : is_line s.path ≡ true
  pub timestamp : is_line s.timestamp ≡ true
  pub nonce : is_line s.nonce ≡ true

-- What begins with a line break begins with no other character.
break_ne_char : (c : Char) (s t : String) → "\n" ++ s ≡ String.◌∷◌ c t → eqb (code c) 10 ≡ false → ⊥
break_ne_char c s t e other =
    let (same, _) = cons-eq-cons.0 (sym (cons-append _ "" s) ∙ e) in
    cc (ap (λ d. eqb (code d) 10) same, other)

-- A line is read back from what begins with it and a line break.
line_inj :
    (a b s t : String)
    → is_line a ≡ true
    → is_line b ≡ true
    → a ++ ("\n" ++ s) ≡ b ++ ("\n" ++ t)
    → (a ≡ b) × (s ≡ t)
line_inj String.[] String.[] s t h k e =
    (refl, append_cancel_left "\n" s t (sym (nil-append _) ∙ e ∙ nil-append _))
line_inj String.[] (String.◌∷◌ d b) s t h k e =
    absurd (break_ne_char d s _ (sym (nil-append _) ∙ e ∙ cons-append d b _) (ground arith))
line_inj (String.◌∷◌ c a) String.[] s t h k e =
    absurd (break_ne_char c t _ (sym (nil-append _) ∙ sym e ∙ cons-append c a _) (ground arith))
line_inj (String.◌∷◌ c a) (String.◌∷◌ d b) s t h k e =
    let (same, rest) = cons-eq-cons.0 (sym (cons-append c a _) ∙ e ∙ cons-append d b _) in
    let (lines, tails) = line_inj a b s t (ground arith) (ground arith) rest in
    (cc (same, lines), tails)

-- If two requests have the same signed message and their methods, paths, timestamps and nonces
-- hold no line break, then their methods agree up to case and their paths, timestamps, nonces and
-- bodies are the same.
pub signature_message_inj :
    (r s : Signed)
    → IsOneLine r
    → IsOneLine s
    → signature_message r ≡ signature_message s
    → (upper r.method ≡ upper s.method)
      × (r.path ≡ s.path)
      × (r.timestamp ≡ s.timestamp)
      × (r.nonce ≡ s.nonce)
      × (r.body ≡ s.body)
unfolding signature_message
signature_message_inj r s h k e =
    let (methods, e₁) = line_inj _ _ _ _ h.method k.method e in
    let (paths, e₂) = line_inj _ _ _ _ h.path k.path e₁ in
    let (times, e₃) = line_inj _ _ _ _ h.timestamp k.timestamp e₂ in
    let (nonces, bodies) = line_inj _ _ _ _ h.nonce k.nonce e₃ in
    (methods, paths, times, nonces, bodies)
