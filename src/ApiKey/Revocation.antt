-- ===== src/ApiKey/Revocation.antt =====
-- lib/api-key/memory-repository.ts: what revoking every key of an owner leaves.
use iam_pager.Base.{
  ℕ, ◌+◌, Text, Bool, List, [], ◌∷◌, Option, none, some, false, if◌then◌else◌, ◌==◌, ◌&&◌, any,
  filter, length, ◌≡◌, refl, arith, Option-cases, Bool-cases, inl, inr,
}
use iam_pager.Base.Map.{get, values, get-delete}
use iam_pager.Base.Keys.{IsUnique, delete-IsUnique, any-values, values-any}
use iam_pager.ApiKey.{ApiKeyRecord}
use iam_pager.ApiKey.Store.{
  ApiKeyStore, without, revoke_one, revoke_each, revoke_all_by_owner, list_by_owner,
  find_by_secret_hash,
}

-- Every key stands under its own identity, no identity twice, and the index leads from a hash to a
-- key exactly when the key has that hash.
pub record IsCoherent (s : ApiKeyStore) : Type 0 where
  pub unique : IsUnique s.records
  pub id_kept : (id : Text) (r : ApiKeyRecord) → get s.records id ≡ some r → r.api_key_id ≡ id
  pub indexed :
      (id : Text) (r : ApiKeyRecord)
      → get s.records id ≡ some r
      → get s.by_secret_hash r.secret_hash ≡ some id
  pub owned :
      (h id : Text)
      → get s.by_secret_hash h ≡ some id
      → (r : ApiKeyRecord) × (get s.records id ≡ some r) × (r.secret_hash ≡ h)

abbrev taken_id : Text → Text → ApiKeyRecord → Bool
taken_id owner id r = r.owner_user_id == owner && r.api_key_id == id

abbrev taken_hash : Text → Text → ApiKeyRecord → Bool
taken_hash owner h r = r.owner_user_id == owner && r.secret_hash == h

module _ (owner : Text) where
  revoke_each-records :
      (rs : List ApiKeyRecord) (n : ℕ) (s : ApiKeyStore) (id : Text)
      → get ((revoke_each owner rs (n, s)).1).records id
        ≡ (if any (taken_id owner id) rs then none else get s.records id)
  unfolding revoke_each
  revoke_each-records [] n s id = refl
  revoke_each-records (r ∷ rs) n s id = elim (Bool-cases (r.owner_user_id == owner)) [
    | inl its ↦ rw its (
        ground (
          arith,
          its,
          revoke_each-records rs (n + 1) (without r.api_key_id r s) id,
          get-delete s.records r.api_key_id id,
        ))
    | inr other ↦ rw other (ground (arith, other, revoke_each-records rs n s id))
  ]

  revoke_each-hashes :
      (rs : List ApiKeyRecord) (n : ℕ) (s : ApiKeyStore) (h : Text)
      → get ((revoke_each owner rs (n, s)).1).by_secret_hash h
        ≡ (if any (taken_hash owner h) rs then none else get s.by_secret_hash h)
  unfolding revoke_each
  revoke_each-hashes [] n s h = refl
  revoke_each-hashes (r ∷ rs) n s h = elim (Bool-cases (r.owner_user_id == owner)) [
    | inl its ↦ rw its (
        ground (
          arith,
          its,
          revoke_each-hashes rs (n + 1) (without r.api_key_id r s) h,
          get-delete s.by_secret_hash r.secret_hash h,
        ))
    | inr other ↦ rw other (ground (arith, other, revoke_each-hashes rs n s h))
  ]

  revoke_one-IsUnique :
      (r : ApiKeyRecord) (done : ℕ × ApiKeyStore)
      → IsUnique done.1.records
      → IsUnique (revoke_one owner r done).1.records
  revoke_one-IsUnique r (n, s) u = elim (Bool-cases (r.owner_user_id == owner)) [
    | inl its ↦ rw its (delete-IsUnique s.records r.api_key_id u)
    | inr other ↦ rw other u
  ]

  revoke_each-IsUnique :
      (rs : List ApiKeyRecord) (done : ℕ × ApiKeyStore)
      → IsUnique done.1.records
      → IsUnique (revoke_each owner rs done).1.records
  unfolding revoke_each
  revoke_each-IsUnique [] done u = u
  revoke_each-IsUnique (r ∷ rs) done u =
      revoke_each-IsUnique rs (revoke_one owner r done) (revoke_one-IsUnique r done u)

  revoke_each-count :
      (rs : List ApiKeyRecord) (n : ℕ) (s : ApiKeyStore)
      → (revoke_each owner rs (n, s)).0 ≡ n + length (filter (λ r. r.owner_user_id == owner) rs)
  unfolding revoke_each
  revoke_each-count [] n s = omega arith
  revoke_each-count (r ∷ rs) n s = elim (Bool-cases (r.owner_user_id == owner)) [
    | inl its ↦ rw its (ground (arith, revoke_each-count rs (n + 1) (without r.api_key_id r s)))
    | inr other ↦ rw other (ground (arith, revoke_each-count rs n s))
  ]

-- Whether there is a key and it is the owner's
abbrev is_of : Text → Option ApiKeyRecord → Bool
is_of owner none = false
is_of owner (some r) = r.owner_user_id == owner

any-taken_id :
    (owner id : Text) (s : ApiKeyStore)
    → IsCoherent s
    → any (taken_id owner id) (values s.records) ≡ is_of owner (get s.records id)
any-taken_id owner id s v = elim (Bool-cases (any (taken_id owner id) (values s.records))) [
  | inl e ↦
      let (k, r, at, is) = values-any (taken_id owner id) s.records v.unique e in
      ground (arith, v.id_kept k r at)
  | inr e ↦ elim (Option-cases (get s.records id)) [
    | inl nothing ↦ rw (e, nothing) refl
    | inr (r, at) ↦
        let its = v.id_kept id r at in
        ground (arith, any-values (taken_id owner id) s.records id r at)
  ]
]

any-taken_hash :
    (owner h : Text) (s : ApiKeyStore)
    → IsCoherent s
    → any (taken_hash owner h) (values s.records) ≡ is_of owner (find_by_secret_hash h s)
unfolding find_by_secret_hash
any-taken_hash owner h s v = elim (Bool-cases (any (taken_hash owner h) (values s.records))) [
  | inl e ↦
      let (k, r, at, is) = values-any (taken_hash owner h) s.records v.unique e in
      ground (arith, v.indexed k r at)
  | inr e ↦ elim (Option-cases (get s.by_secret_hash h)) [
    | inl nothing ↦ rw (e, nothing) refl
    | inr (id, leads) ↦
        let (r, at, hash) = v.owned h id leads in
        ground (arith, any-values (taken_hash owner h) s.records id r at)
  ]
]

-- A key, unless it is the owner's
abbrev pub not_of : Text → Option ApiKeyRecord → Option ApiKeyRecord
not_of owner none = none
not_of owner (some r) = if r.owner_user_id == owner then none else some r

-- What revoking every key of an owner leaves
pub record RevokesAll (owner : Text) (s : ApiKeyStore) (result : ℕ × ApiKeyStore) : Type 0 where
  pub counted : result.0 ≡ length (list_by_owner owner s)
  pub coherent : IsCoherent result.1
  pub by_id : (id : Text) → get result.1.records id ≡ not_of owner (get s.records id)
  pub by_hash : (h : Text) → find_by_secret_hash h result.1 ≡ not_of owner (find_by_secret_hash h s)

module _ (owner : Text) (s : ApiKeyStore) (v : IsCoherent s) where
  abbrev result : ℕ × ApiKeyStore
  result = revoke_each owner (values s.records) (0, s)

  by_id_after : (id : Text) → get result.1.records id ≡ not_of owner (get s.records id)
  by_id_after id = elim (Option-cases (get s.records id)) [
    | inl nothing ↦
        ground
          (arith, revoke_each-records owner (values s.records) 0 s id, any-taken_id owner id s v)
    | inr (r, at) ↦
        ground
          (arith, revoke_each-records owner (values s.records) 0 s id, any-taken_id owner id s v)
  ]

  hash_after :
      (h : Text)
      → get result.1.by_secret_hash h
        ≡ (if is_of owner (find_by_secret_hash h s) then none else get s.by_secret_hash h)
  hash_after h =
      rw (← any-taken_hash owner h s v) (revoke_each-hashes owner (values s.records) 0 s h)

  by_hash_after :
      (h : Text) → find_by_secret_hash h result.1 ≡ not_of owner (find_by_secret_hash h s)
  unfolding find_by_secret_hash
  by_hash_after h = elim (Option-cases (get s.by_secret_hash h)) [
    | inl nothing ↦ ground (arith, hash_after h)
    | inr (id, leads) ↦
        let (r, at, hash) = v.owned h id leads in ground (arith, hash_after h, by_id_after id)
  ]

  result-IsCoherent : IsCoherent result.1
  unfolding find_by_secret_hash
  result-IsCoherent = record {
    unique = revoke_each-IsUnique owner (values s.records) (0, s) v.unique;
    id_kept = λ id r e. ground (arith, by_id_after id, v.id_kept id r);
    indexed = λ id r e. ground (arith, by_id_after id, hash_after r.secret_hash, v.indexed id r);
    owned = λ h id e. elim (Option-cases (get s.by_secret_hash h)) [
      | inl nothing ↦ absurd (ground (arith, hash_after h))
      | inr (j, leads) ↦
          let (r, at, hash) = v.owned h j leads in
          (r, ground (arith, hash_after h, by_id_after j), hash)
    ];
  }

-- Revoking every key of an owner counts the owner's keys and leaves none of them to be found, by
-- identity or by secret; the keys of others are found as before.
pub revoke_all-RevokesAll :
    (owner : Text) (s : ApiKeyStore)
    → IsCoherent s
    → RevokesAll owner s (revoke_all_by_owner owner s)
unfolding revoke_all_by_owner list_by_owner
revoke_all-RevokesAll owner s v = record {
  counted = omega (arith, revoke_each-count owner (values s.records) 0 s);
  coherent = result-IsCoherent owner s v;
  by_id = by_id_after owner s v;
  by_hash = by_hash_after owner s v;
}
