-- ===== src/Session/Csrf.antt =====
-- lib/http/csrf.ts: the comparison of two tokens that looks at every code unit.
use Prim.Native.Nat.{
  bit_or-bitwise, bit_xor-bitwise, max, bit_xor, bit_or, digits, differ, ◌/◌, ◌%◌,
}
use mathlib.Core.Path.{ap₂}
use iam_pager.Base.{
  refl, text_dec, ◌==◌, ℕ, zero, suc, ◌≤◌, Text, Bool, false, [], ◌∷◌, ◌≡◌, ap, arith, length, eqb,
  not, if◌then◌else◌,
}

-- The loop: `difference |= expected[index] ^ actual[index]`
unfoldable pub difference_from : ℕ → Text → Text → ℕ
difference_from difference [] _ = difference
difference_from difference (_ ∷ _) [] = difference
difference_from difference (x ∷ expected) (y ∷ actual) =
    difference_from (bit_or difference (bit_xor x y)) expected actual

unfoldable pub csrf_tokens_match : Text → Text → Bool
csrf_tokens_match expected actual =
    if not (eqb (length actual) (length expected))
    then false
    else eqb (difference_from 0 expected actual) 0

differ-zero : (x y : ℕ) → differ x y ≡ 0 → x ≡ y
differ-zero zero y e = omega arith
differ-zero (suc x) zero e = e
differ-zero (suc x) (suc y) e = ap suc (differ-zero x y e)

differ_self : (x : ℕ) → differ x x ≡ 0
differ_self zero = refl
differ_self (suc x) = differ_self x

max-zero : (x y : ℕ) → max x y ≡ 0 → (x ≡ 0) × (y ≡ 0)
max-zero x y e = (omega arith, omega arith)

digits-xor-zero : (n a b : ℕ) → a ≤ n → digits (λ b. b) differ n a b ≡ 0 → a ≡ b
digits-xor-zero zero a b h e = omega arith
digits-xor-zero (suc n) zero b h e = omega arith
digits-xor-zero (suc n) (suc a) b h e =
    let rest = digits (λ b. b) differ n (suc a / 2) (b / 2) in
    let high : rest ≡ 0 = omega arith in
    let low : differ (suc a % 2) (b % 2) ≡ 0 = omega arith in
    let halves = digits-xor-zero n (suc a / 2) (b / 2) (omega arith) high in
    let parity = differ-zero (suc a % 2) (b % 2) low in omega arith

xor_self : (n a : ℕ) → a ≤ n → digits (λ b. b) differ n a a ≡ 0
xor_self zero a h = omega arith
xor_self (suc n) zero h = refl
xor_self (suc n) (suc a) h =
    let rest = xor_self n (suc a / 2) (omega arith) in
    let low = differ_self (suc a % 2) in omega arith

or-zero : (n a b : ℕ) → a ≤ n → digits (λ b. b) max n a b ≡ 0 → (a ≡ 0) × (b ≡ 0)
or-zero zero a b h e = (omega arith, e)
or-zero (suc n) zero b h e = (refl, e)
or-zero (suc n) (suc a) b h e =
    let rest = digits (λ b. b) max n (suc a / 2) (b / 2) in
    let high : rest ≡ 0 = omega arith in
    let low : max (suc a % 2) (b % 2) ≡ 0 = omega arith in
    let (half, other) = or-zero n (suc a / 2) (b / 2) (omega arith) high in
    let (odd, even) = max-zero (suc a % 2) (b % 2) low in (omega arith, omega arith)

difference_from-zero :
    (d : ℕ) (expected actual : Text)
    → length actual ≡ length expected
    → difference_from d expected actual ≡ 0
    → (d ≡ 0) × (expected ≡ actual)
unfolding difference_from
difference_from-zero d [] [] h e = (e, refl)
difference_from-zero d [] (_ ∷ _) h e = absurd (omega arith)
difference_from-zero d (_ ∷ _) [] h e = absurd (omega arith)
difference_from-zero d (x ∷ xs) (y ∷ ys) h e =
    let (both, tails) = difference_from-zero (bit_or d (bit_xor x y)) xs ys (omega arith) e in
    let (before, here) =
      or-zero d d (bit_xor x y) (omega arith) (rw (← bit_or-bitwise d (bit_xor x y)) both) in
    (before, ap₂ ◌∷◌ (digits-xor-zero x x y (omega arith) (rw (← bit_xor-bitwise x y) here)) tails)

difference_from-same : (t : Text) → difference_from 0 t t ≡ 0
unfolding difference_from
difference_from-same [] = refl
difference_from-same (x ∷ t) =
    rw (bit_xor-bitwise x x, xor_self x x (omega arith)) (difference_from-same t)

-- The comparison that never stops early answers as equality of the texts does.
pub csrf_tokens_match_lem :
    (expected actual : Text) → csrf_tokens_match expected actual ≡ (expected == actual)
unfolding csrf_tokens_match
csrf_tokens_match_lem expected actual = elim (text_dec expected actual) [
  | yes same ↦ ground (arith, difference_from-same expected, same)
  | no other ↦ ground (arith, other, difference_from-zero 0 expected actual)
]
