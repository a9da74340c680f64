-- ===== src/Base/Text.antt =====
-- Texts as lists of code points, with the string methods that the harness calls.
use Prim.Native.Nat.{ℕ, ◌+◌, ◌*◌, ◌-◌}
use Prim.Native.Char.{code}
use Prim.Native.String.{String}
use mathlib.Core.Path.{◌≡◌, refl}
use mathlib.Core.Logic.{◌↔◌}
use mathlib.Core.Bool.{Bool, true, false, ◌&&◌, ◌||◌}
use mathlib.Core.Option.{Option, none, some}
use mathlib.Core.List.{List, [], ◌∷◌, ◌++◌}
use native.Mathlib.Omega.{arith}
use kozo.Base.Logic.{leb, Equality, ◌==◌, nat_beq, nat_equality, if◌then◌else◌}
use kozo.Base.Lists.{all}

abbrev pub Text : Type 0
Text = List ℕ

-- The code points of a string. `String` has its own `[]` and `∷`.
abbrev pub codes : String → Text
codes String.[] = []
codes (String.◌∷◌ c s) = code c ∷ codes s

abbrev pub text_beq : Text → Text → Bool
text_beq [] [] = true
text_beq [] (b ∷ bs) = false
text_beq (a ∷ as') [] = false
text_beq (a ∷ as') (b ∷ bs) = nat_beq a b && text_beq as' bs

pub text_beq_iff : (a b : Text) → (text_beq a b ≡ true) ↔ (a ≡ b)
text_beq_iff [] [] = ground arith
text_beq_iff [] (b ∷ bs) = ground arith
text_beq_iff (a ∷ as') [] = ground arith
text_beq_iff (a ∷ as') (b ∷ bs) = ground (arith, text_beq_iff as' bs)

instance abbrev pub text_equality : Equality Text
text_equality = record { equals = text_beq; equals_iff = text_beq_iff }

-- `str.isspace` of one character, which is also the `\s` of `re`.
unfoldable pub is_space : ℕ → Bool
is_space c =
    (leb 9 c && leb c 13)
    || (leb 28 c && leb c 32)
    || c == 133
    || c == 160
    || c == 5760
    || (leb 8192 c && leb c 8202)
    || c == 8232
    || c == 8233
    || c == 8239
    || c == 8287
    || c == 12288

-- `bool(text.strip())`
unfoldable pub is_blank : Text → Bool
unfolding is_space
is_blank t = all is_space t

-- `text.startswith(prefix)`
unfoldable pub starts_with : Text → Text → Bool
starts_with [] t = true
starts_with (p ∷ ps) [] = false
starts_with (p ∷ ps) (c ∷ t) = p == c && starts_with ps t

-- What follows the prefix.
unfoldable pub strip_prefix : Text → Text → Option Text
strip_prefix [] t = some t
strip_prefix (p ∷ ps) [] = none
strip_prefix (p ∷ ps) (c ∷ t) = if p == c then strip_prefix ps t else none

-- `text.endswith(c)` for one character
unfoldable pub ends_with : ℕ → Text → Bool
ends_with e [] = false
ends_with e (c ∷ []) = c == e
ends_with e (c ∷ d ∷ t) = ends_with e (d ∷ t)

abbrev pub is_digit : ℕ → Bool
is_digit c = leb b'0' c && leb c b'9'

-- `int(text)` on decimal digits
unfoldable pub int_of_digits : ℕ → Text → ℕ
int_of_digits n [] = n
int_of_digits n (c ∷ t) = int_of_digits (n * 10 + (c - b'0')) t

pub starts_with_iff : (p t : Text) → (starts_with p t ≡ true) ↔ ((rest : Text) × (t ≡ p ++ rest))
unfolding starts_with
starts_with_iff [] t = (λ _. (t, refl), λ _. refl)
starts_with_iff (p ∷ ps) [] = (λ h. cc, λ (rest, e). cc)
starts_with_iff (p ∷ ps) (c ∷ t) = ground (arith, starts_with_iff ps t)

pub strip_prefix-some : (p t rest : Text) → (strip_prefix p t ≡ some rest) ↔ (t ≡ p ++ rest)
unfolding strip_prefix
strip_prefix-some [] t rest = ground arith
strip_prefix-some (p ∷ ps) [] rest = ground arith
strip_prefix-some (p ∷ ps) (c ∷ t) rest = ground (arith, strip_prefix-some ps t rest)

pub strip_prefix-append : (p rest : Text) → strip_prefix p (p ++ rest) ≡ some rest
strip_prefix-append p rest = (strip_prefix-some p (p ++ rest) rest).1 refl
