-- ===== src/ApiKey/Permissions.antt =====
-- lib/api-key/model.ts: what the normalisation of requested permissions grants.
use iam_pager.Base.{
  Text, codes, List, [], ◌∷◌, some, true, member, eqb, length, filter, ◌||◌, ◌==◌, ◌≡◌, refl, arith,
  inl, inr, Option-cases, Bool-cases, text_dec, subst,
}
use iam_pager.ApiKey.{
  ApiKeyPermission, read, write, delete, api_key_permissions, name_of, same_permission, grants,
  normalized, permission_of, normalize_from, normalize_api_key_permissions,
}

-- The filtered list grants what the permissions seen grant.
grants-filter :
    (seen : List ApiKeyPermission) (p : ApiKeyPermission)
    → grants (filter (grants seen) api_key_permissions) p ≡ grants seen p
grants-filter seen read = elim (Bool-cases (grants seen read)) [
  | inl e ↦ ground (arith, e)
  | inr e ↦ ground (arith, e)
]
grants-filter seen write = ground arith
grants-filter seen delete = ground arith

permission_of-name_of :
    (candidate : Text) (p : ApiKeyPermission)
    → permission_of candidate ≡ some p
    → candidate ≡ name_of p
permission_of-name_of candidate read e = ground arith
permission_of-name_of candidate write e = ground arith
permission_of-name_of candidate delete e = ground arith

same_permission_lem : (q p : ApiKeyPermission) → same_permission q p ≡ (name_of q == name_of p)
unfolding text_dec
same_permission_lem read read = refl
same_permission_lem read write = refl
same_permission_lem read delete = refl
same_permission_lem write read = refl
same_permission_lem write write = refl
same_permission_lem write delete = refl
same_permission_lem delete read = refl
same_permission_lem delete write = refl
same_permission_lem delete delete = refl

normalize_from_lem :
    (input : List Text) (seen permissions : List ApiKeyPermission) (p : ApiKeyPermission)
    → normalize_from input seen ≡ normalized permissions
    → grants permissions p ≡ (member (name_of p) input || grants seen p)
unfolding normalize_from member
normalize_from_lem [] seen permissions p e = ground (arith, grants-filter seen p)
normalize_from_lem (candidate ∷ rest) seen permissions p e =
    elim (Option-cases (permission_of candidate)) [
      | inl unknown ↦ absurd (ground arith)
      | inr (q, names) ↦ elim (Bool-cases (grants seen q)) [
        | inl twice ↦ absurd (ground arith)
        | inr new ↦
            let later = normalize_from_lem rest (q ∷ seen) permissions p (ground arith) in
            ground (arith, later, permission_of-name_of candidate q names, same_permission_lem p q)
      ]
    ]

filter-again :
    (seen : List ApiKeyPermission)
    → filter (grants seen) api_key_permissions
      ≡ filter (grants (filter (grants seen) api_key_permissions)) api_key_permissions
filter-again seen =
    rw (grants-filter seen read, grants-filter seen write, grants-filter seen delete) refl

normalize_from-canonical :
    (input : List Text) (seen permissions : List ApiKeyPermission)
    → normalize_from input seen ≡ normalized permissions
    → permissions ≡ filter (grants permissions) api_key_permissions
unfolding normalize_from
normalize_from-canonical [] seen permissions e = ground (arith, filter-again seen)
normalize_from-canonical (candidate ∷ rest) seen permissions e =
    elim (Option-cases (permission_of candidate)) [
      | inl unknown ↦ absurd (ground arith)
      | inr (q, names) ↦ elim (Bool-cases (grants seen q)) [
        | inl twice ↦ absurd (ground arith)
        | inr new ↦ normalize_from-canonical rest (q ∷ seen) permissions (ground arith)
      ]
    ]

grants-all : (p : ApiKeyPermission) → grants api_key_permissions p ≡ true
grants-all read = refl
grants-all write = refl
grants-all delete = refl

-- The permissions stored for a request stand in the order read, write, delete, each at most once,
-- and they grant a permission exactly when the request names it or asks for all.
pub normalize_api_key_permissions_lem :
    (input : List Text) (permissions : List ApiKeyPermission)
    → normalize_api_key_permissions input ≡ normalized permissions
    → (permissions ≡ filter (grants permissions) api_key_permissions)
      × ((p : ApiKeyPermission)
          → grants permissions p ≡ (member (codes "all") input || member (name_of p) input))
unfolding normalize_api_key_permissions
normalize_api_key_permissions_lem [] permissions e = absurd (ground arith)
normalize_api_key_permissions_lem (first ∷ rest) permissions e =
    elim (Bool-cases (member (codes "all") (first ∷ rest))) [
      | inr named ↦
          let loop : normalize_from (first ∷ rest) [] ≡ normalized permissions = rw named at e in
          (
            normalize_from-canonical (first ∷ rest) [] permissions loop,
            λ p. rw named (ground (arith, normalize_from_lem (first ∷ rest) [] permissions p loop)),
          )
      | inl asks ↦ elim (Bool-cases (eqb (length (first ∷ rest)) 1)) [
        | inr more ↦ absurd (ground (arith, rw (asks, more) at e))
        | inl alone ↦
            let same : api_key_permissions ≡ permissions = ground (arith, rw (asks, alone) at e) in
            (
              subst (λ ps. ps ≡ filter (grants ps) api_key_permissions) same refl,
              λ p. rw (← same, asks) (grants-all p),
            )
      ]
    ]
