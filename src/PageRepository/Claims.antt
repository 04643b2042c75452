-- ===== src/PageRepository/Claims.antt =====
-- lib/page/memory-aggregate-repository.ts: the pages whose locators an endpoint set claims.
use iam_pager.Base.{
  Text, List, [], ◌∷◌, ◌++◌, Option, none, some, true, false, ◌≡◌, refl, ◌==◌, ◌||◌, member, arith,
  inl, inr, Bool-cases,
}
use iam_pager.Base.Map.{Map, get}
use iam_pager.Endpoint.Violation.{Distinct}
use iam_pager.PageRepository.State.{add_id, add_claim, claims}

pub member-append :
    (t : Text) (xs ys : List Text) → member t (xs ++ ys) ≡ (member t xs || member t ys)
unfolding member
member-append t [] ys = refl
member-append t (x ∷ xs) ys = ground (arith, member-append t xs ys)

pub member-add_id :
    (j id : Text) (ids : List Text) → member j (add_id id ids) ≡ (id == j || member j ids)
unfolding member
member-add_id j id ids = ground (arith, member-append j ids (id ∷ []))

Distinct-snoc :
    (ids : List Text) (id : Text) → Distinct ids → member id ids ≡ false → Distinct (ids ++ id ∷ [])
unfolding member
Distinct-snoc [] id d new = (refl, tt)
Distinct-snoc (j ∷ ids) id d new =
    (ground (arith, member-append j ids (id ∷ [])), Distinct-snoc ids id d.1 (ground arith))

pub Distinct-add_id : (id : Text) (ids : List Text) → Distinct ids → Distinct (add_id id ids)
Distinct-add_id id ids d = elim (Bool-cases (member id ids)) [
  | inl old ↦ rw old d
  | inr new ↦ rw new (Distinct-snoc ids id d new)
]

claims-keep :
    (index : Map Text) (ks ids : List Text) (id : Text)
    → member id ids ≡ true
    → member id (claims index ks ids) ≡ true
unfolding claims add_claim
claims-keep index [] ids id h = h
claims-keep index (k ∷ ks) ids id h =
    claims-keep index ks (add_claim (get index k) ids) id (added (get index k))
  where
    added : (o : Option Text) → member id (add_claim o ids) ≡ true
    added none = h
    added (some j) = ground (arith, member-add_id id j ids)

pub claims-cover :
    (index : Map Text) (ks ids : List Text) (k id : Text)
    → member k ks ≡ true
    → get index k ≡ some id
    → member id (claims index ks ids) ≡ true
unfolding claims add_claim member
claims-cover index [] ids k id m e = cc
claims-cover index (j ∷ ks) ids k id m e = elim (Bool-cases (j == k)) [
  | inl here ↦ claims-keep index ks _ id (ground (arith, member-add_id id id ids))
  | inr there ↦ claims-cover index ks (add_claim (get index j) ids) k id (ground arith) e
]

-- Every identity of the list is claimed through one of the keys.
abbrev pub AreClaimed : Map Text → List Text → List Text → Type 0
AreClaimed index ks ids =
    (id : Text) → member id ids ≡ true → (k : Text) × (member k ks ≡ true) × (get index k ≡ some id)

pub claims-AreClaimed :
    (index : Map Text) (all_keys ks ids : List Text)
    → ((k : Text) → member k ks ≡ true → member k all_keys ≡ true)
    → AreClaimed index all_keys ids
    → AreClaimed index all_keys (claims index ks ids)
unfolding claims add_claim member
claims-AreClaimed index all_keys [] ids sub h = h
claims-AreClaimed index all_keys (j ∷ ks) ids sub h =
    claims-AreClaimed index all_keys ks (add_claim (get index j) ids) (λ k m. sub k (ground arith))
      (added (get index j) refl)
  where
    added : (o : Option Text) → get index j ≡ o → AreClaimed index all_keys (add_claim o ids)
    added none e = h
    added (some i) e = λ id m. elim (Bool-cases (i == id)) [
      | inl same ↦ (j, sub j (ground arith), ground arith)
      | inr other ↦ h id (ground (arith, member-add_id id i ids))
    ]
