-- ===== src/Locator/Identity.antt =====
-- lib/locator/model.ts: what the identity key of a locator tells apart.
use iam_pager.Base.{
  Text, to_lower, lower_code, ℕ, ◌≡◌, ◌≢◌, [], ◌∷◌, ◌++◌, All, Option, none, some, arith, sym,
}
use iam_pager.Locator.{Locator, locator_key, locator_key_from}

-- No code unit of the text is a slash.
abbrev pub HasNoSlash : Text → Type 0
HasNoSlash t = All (λ c. c ≢ b'/') t

lower-ne-slash : (c : ℕ) → c ≢ b'/' → lower_code c ≢ b'/'
lower-ne-slash c h = ground arith

to_lower-HasNoSlash : (t : Text) → HasNoSlash t → HasNoSlash (to_lower t)
unfolding to_lower
to_lower-HasNoSlash [] h = tt
to_lower-HasNoSlash (c ∷ t) h = (lower-ne-slash c h.0, to_lower-HasNoSlash t h.1)

-- The two sides of the first slash are determined by the joined text.
split_at_slash :
    (a b c d : Text)
    → HasNoSlash a
    → HasNoSlash b
    → a ++ b'/' ∷ c ≡ b ++ b'/' ∷ d
    → (a ≡ b) × (c ≡ d)
split_at_slash [] [] c d h k e = ground arith
split_at_slash [] (y ∷ b) c d h k e = ground arith
split_at_slash (x ∷ a) [] c d h k e = ground arith
split_at_slash (x ∷ a) (y ∷ b) c d h k e = ground (arith, split_at_slash a b c d h.1 k.1)

slash_shows : (a b c : Text) → HasNoSlash a → a ≢ b ++ b'/' ∷ c
slash_shows [] [] c h e = ground arith
slash_shows [] (y ∷ b) c h e = ground arith
slash_shows (x ∷ a) [] c h e = ground arith
slash_shows (x ∷ a) (y ∷ b) c h e = ground (arith, slash_shows a b c h.1)

abbrev pub SameName : Option Text → Option Text → Type 0
SameName none none = Unit
SameName (some n) (some m) = to_lower n ≡ to_lower m
SameName _ _ = ⊥

-- The same page, up to the case of its letters.
abbrev pub SameLocator : Locator → Locator → Type 0
SameLocator a b = (to_lower a.namespace ≡ to_lower b.namespace) × SameName a.page_name b.page_name

key_from_injective :
    (a b : Text) (n m : Option Text)
    → HasNoSlash (to_lower a)
    → HasNoSlash (to_lower b)
    → locator_key_from a n ≡ locator_key_from b m
    → (to_lower a ≡ to_lower b) × SameName n m
unfolding locator_key_from
key_from_injective a b none none h k e = (e, tt)
key_from_injective a b none (some m) h k e = absurd (slash_shows _ _ _ h e)
key_from_injective a b (some n) none h k e = absurd (slash_shows _ _ _ k (sym e))
key_from_injective a b (some n) (some m) h k e = split_at_slash _ _ _ _ h k e

key_from_respects :
    (a b : Text) (n m : Option Text)
    → to_lower a ≡ to_lower b
    → SameName n m
    → locator_key_from a n ≡ locator_key_from b m
unfolding locator_key_from
key_from_respects a b none none e s = e
key_from_respects a b none (some m) e s = absurd s
key_from_respects a b (some n) none e s = absurd s
key_from_respects a b (some n) (some m) e s = rw (e, s)

-- For namespaces without a slash, two locators have one key exactly when they differ in the case
-- of letters only: a default page and a named page never share a key.
pub locator_key_iff :
    (a b : Locator)
    → HasNoSlash a.namespace
    → HasNoSlash b.namespace
    → (locator_key a ≡ locator_key b → SameLocator a b)
      × (SameLocator a b → locator_key a ≡ locator_key b)
unfolding locator_key
locator_key_iff a b h k = (
  key_from_injective a.namespace b.namespace a.page_name b.page_name
      (to_lower-HasNoSlash a.namespace h) (to_lower-HasNoSlash b.namespace k),
  λ s. key_from_respects a.namespace b.namespace a.page_name b.page_name s.0 s.1,
)
