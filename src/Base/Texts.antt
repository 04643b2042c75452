-- ===== src/Base/Texts.antt =====
-- Texts as lists of code units, which is how the source's strings are indexed and compared.
use Prim.Native.Nat.{ℕ, ◌+◌}
use Prim.Native.Char.{code}
use Prim.Native.String.{String}
use mathlib.Core.Path.{◌≡◌, refl, ap₂}
use mathlib.Core.Bool.{Bool, true, false, ◌&&◌, ◌||◌}
use mathlib.Core.List.{List, [], ◌∷◌, map}
use native.Mathlib.Omega.{arith}
use native.Mathlib.Decide.{ℕ_discrete}
use iam_pager.Base.Tests.{ltb, leb, eqb, if◌then◌else◌}

abbrev pub Text : Type 0
Text = List ℕ

-- A quoted text as its code units.
abbrev pub codes : String → Text
codes String.[] = []
codes (String.◌∷◌ c s) = code c ∷ codes s

unfoldable pub text_dec : Discrete Text
unfolding ℕ_discrete
text_dec = hlevel ℕ_discrete

-- `===` on texts
infix 50 ◌==◌
abbrev pub ◌==◌ : Text → Text → Bool
a == b = elim (text_dec a b) [ yes _ ↦ true | no _ ↦ false ]

-- `<` on texts: lexicographic by code units
unfoldable pub text_lt : Text → Text → Bool
text_lt [] [] = false
text_lt [] (_ ∷ _) = true
text_lt (_ ∷ _) [] = false
text_lt (x ∷ xs) (y ∷ ys) = if ltb x y then true else eqb x y && text_lt xs ys

-- `toLowerCase`, on the Latin letters of ASCII
abbrev pub lower_code : ℕ → ℕ
lower_code c = if leb b'A' c && leb c b'Z' then c + 32 else c

unfoldable pub to_lower : Text → Text
to_lower = map lower_code

-- `includes` on an array of texts
unfoldable pub member : Text → List Text → Bool
member t [] = false
member t (x ∷ xs) = x == t || member t xs

pub text_lt_irrefl : (a : Text) → text_lt a a ≡ false
unfolding text_lt
text_lt_irrefl [] = refl
text_lt_irrefl (x ∷ xs) = ground (arith, text_lt_irrefl xs)

-- Any two different texts are ordered.
pub text_lt_total : (a b : Text) → text_lt a b ≡ false → (a == b) ≡ false → text_lt b a ≡ true
unfolding text_lt
text_lt_total [] [] h k = ground arith
text_lt_total [] (y ∷ ys) h k = ground arith
text_lt_total (x ∷ xs) [] h k = refl
text_lt_total (x ∷ xs) (y ∷ ys) h k = ground (arith, text_lt_total xs ys)

pub text_lt_trans : (a b c : Text) → text_lt a b ≡ true → text_lt b c ≡ true → text_lt a c ≡ true
unfolding text_lt
text_lt_trans [] [] c h k = cc
text_lt_trans [] (y ∷ ys) [] h k = cc
text_lt_trans [] (y ∷ ys) (z ∷ zs) h k = refl
text_lt_trans (x ∷ xs) [] c h k = cc
text_lt_trans (x ∷ xs) (y ∷ ys) [] h k = cc
text_lt_trans (x ∷ xs) (y ∷ ys) (z ∷ zs) h k = ground (arith, text_lt_trans xs ys zs)

pub lower_code_idempotent : (c : ℕ) → lower_code (lower_code c) ≡ lower_code c
lower_code_idempotent c = ground arith

pub to_lower_idempotent : (t : Text) → to_lower (to_lower t) ≡ to_lower t
unfolding to_lower
to_lower_idempotent [] = refl
to_lower_idempotent (c ∷ t) = ap₂ ◌∷◌ (lower_code_idempotent c) (to_lower_idempotent t)
