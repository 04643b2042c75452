-- ===== src/Endpoint/Violation.antt =====
-- lib/page/endpoint.ts: what a set without a violation has.
use iam_pager.Base.{
  Text, ◌≡◌, refl, List, [], ◌∷◌, map, Option, none, some, arith, member, false, All,
}
use iam_pager.Endpoint.{
  PageEndpointSet, PageEndpointBinding, alternates_violation, page_endpoint_set_violation,
  bindings_of, key_of,
}

-- No key stands twice.
abbrev pub Distinct : List Text → Type 0
Distinct [] = Unit
Distinct (k ∷ ks) = (member k ks ≡ false) × Distinct ks

abbrev pub Avoids : List Text → List Text → Type 0
Avoids claimed ks = All (λ k. member k claimed ≡ false) ks

Avoids-tail :
    (c : Text) (claimed ks : List Text)
    → Avoids (c ∷ claimed) ks
    → (member c ks ≡ false) × Avoids claimed ks
unfolding member
Avoids-tail c claimed [] h = (refl, tt)
Avoids-tail c claimed (k ∷ ks) h = ground (arith, Avoids-tail c claimed ks h.1)

alternates-Distinct :
    (claimed : List Text) (previous : Option Text) (bs : List PageEndpointBinding)
    → alternates_violation claimed previous bs ≡ none
    → Distinct (map key_of bs) × Avoids claimed (map key_of bs)
unfolding alternates_violation
alternates-Distinct claimed previous [] h = (tt, tt)
alternates-Distinct claimed previous (b ∷ bs) h =
    let later : alternates_violation (key_of b ∷ claimed) (some (key_of b)) bs ≡ none =
      ground arith in
    let (distinct, avoids) = alternates-Distinct (key_of b ∷ claimed) (some (key_of b)) bs later in
    let (fresh, rest) = Avoids-tail (key_of b) claimed (map key_of bs) avoids in
    ((fresh, distinct), (ground arith, rest))

-- A set without a violation claims no locator twice, the canonical one included.
pub violation-none-Distinct :
    (s : PageEndpointSet)
    → page_endpoint_set_violation s ≡ none
    → Distinct (map key_of (bindings_of s))
unfolding page_endpoint_set_violation
violation-none-Distinct s h =
    let later : alternates_violation (key_of s.canonical ∷ []) none s.alternates ≡ none =
      ground arith in
    let (distinct, avoids) =
      alternates-Distinct (key_of s.canonical ∷ []) none s.alternates later in
    ((Avoids-tail (key_of s.canonical) [] (map key_of s.alternates) avoids).0, distinct)
