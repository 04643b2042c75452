-- ===== src/Base/Patterns.antt =====
-- The character classes of the source's regular expressions, and the tests built from them.
use Prim.Native.Nat.{ℕ}
use mathlib.Core.Bool.{Bool, true, false, ◌&&◌, ◌||◌}
use mathlib.Core.List.{[], ◌∷◌}
use iam_pager.Base.Tests.{leb, eqb}
use iam_pager.Base.Lists.{length, all}
use iam_pager.Base.Texts.{Text}

-- `[a-z]`, `[A-Z]`, `[0-9]`
abbrev pub is_lower : ℕ → Bool
is_lower c = leb b'a' c && leb c b'z'

abbrev pub is_upper : ℕ → Bool
is_upper c = leb b'A' c && leb c b'Z'

abbrev pub is_digit : ℕ → Bool
is_digit c = leb b'0' c && leb c b'9'

-- `[A-Za-z0-9_-]`
abbrev pub is_id_char : ℕ → Bool
is_id_char c = is_upper c || is_lower c || is_digit c || eqb c b'_' || eqb c b'-'

-- `[\x00-\x1f\x7f]`
abbrev pub is_control : ℕ → Bool
is_control c = leb c 0x1f || eqb c 0x7f

-- `{least,most}` repetitions of one class
unfoldable pub repeats : (ℕ → Bool) → ℕ → ℕ → Text → Bool
repeats p least most t = leb least (length t) && leb (length t) most && all p t

-- A first character of one class, and at most so many more of another
unfoldable pub headed : (ℕ → Bool) → (ℕ → Bool) → ℕ → Text → Bool
headed first rest most [] = false
headed first rest most (c ∷ t) = first c && leb (length t) most && all rest t

abbrev pub non_empty : Text → Bool
non_empty [] = false
non_empty (_ ∷ _) = true
