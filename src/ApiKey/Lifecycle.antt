-- ===== src/ApiKey/Lifecycle.antt =====
-- lib/api-key/memory-repository.ts: what holds through any operation on the stored keys.
use iam_pager.Base.{
  ℕ, Text, some, false, ◌==◌, eqb, ◌≡◌, refl, arith, Option-cases, Bool-cases, inl, inr,
}
use iam_pager.Base.Map.{get, has, put, get-put, get-delete}
use iam_pager.Base.Keys.{IsUnique, put-IsUnique, delete-IsUnique}
use iam_pager.ApiKey.{ApiKeyRecord}
use iam_pager.ApiKey.Store.{
  empty_store, find_by_secret_hash, ApiKeyStore, create, update, update_from, updated_record,
  KeyUpdate, revoke, revoke_from, without, revoke_all_by_owner,
}
use iam_pager.ApiKey.Revocation.{IsCoherent, revoke_all-RevokesAll}

pub data KeyCommand : Type 0 where
  create_key : ApiKeyRecord → KeyCommand
  update_key : KeyUpdate → KeyCommand
  revoke_key : Text → Text → ℕ → KeyCommand
  revoke_all_keys : Text → KeyCommand

unfoldable pub step_key : KeyCommand → ApiKeyStore → ApiKeyStore
step_key (create_key r) s = (create r s).1
step_key (update_key input) s = (update input s).1
step_key (revoke_key api_key_id owner revision) s = (revoke api_key_id owner revision s).1
step_key (revoke_all_keys owner) s = (revoke_all_by_owner owner s).1

-- On whose behalf the call is made
abbrev pub key_actor : KeyCommand → Text
key_actor (create_key r) = r.owner_user_id
key_actor (update_key input) = input.owner_user_id
key_actor (revoke_key api_key_id owner revision) = owner
key_actor (revoke_all_keys owner) = owner

-- What an operation on one key can do to the store
data KeyChange (owner : Text) (s t : ApiKeyStore) : Type 0 where
  idle : t ≡ s → KeyChange owner s t
  added :
      (r : ApiKeyRecord)
      → has s.records r.api_key_id ≡ false
      → has s.by_secret_hash r.secret_hash ≡ false
      → t ≡ record {
        records = put s.records r.api_key_id r;
        by_secret_hash = put s.by_secret_hash r.secret_hash r.api_key_id;
      }
      → KeyChange owner s t
  rewrote :
      (id : Text) (r u : ApiKeyRecord)
      → get s.records id ≡ some r
      → r.owner_user_id ≡ owner
      → u.api_key_id ≡ r.api_key_id
      → u.secret_hash ≡ r.secret_hash
      → t ≡ record { records = put s.records r.api_key_id u; by_secret_hash = s.by_secret_hash }
      → KeyChange owner s t
  removed :
      (id : Text) (r : ApiKeyRecord)
      → get s.records id ≡ some r
      → r.owner_user_id ≡ owner
      → t ≡ without id r s
      → KeyChange owner s t

create-KeyChange : (r : ApiKeyRecord) (s : ApiKeyStore) → KeyChange r.owner_user_id s (create r s).1
unfolding create
create-KeyChange r s = elim (Bool-cases (has s.records r.api_key_id)) [
  | inl taken ↦ idle (ground arith)
  | inr new ↦ elim (Bool-cases (has s.by_secret_hash r.secret_hash)) [
    | inl taken ↦ idle (ground arith)
    | inr free ↦ added r new free (ground arith)
  ]
]

update-KeyChange : (i : KeyUpdate) (s : ApiKeyStore) → KeyChange i.owner_user_id s (update i s).1
unfolding update update_from
update-KeyChange i s = elim (Option-cases (get s.records i.api_key_id)) [
  | inl missing ↦ idle (rw missing refl)
  | inr (r, at) ↦ elim (Bool-cases (r.owner_user_id == i.owner_user_id)) [
    | inr foreign ↦ idle (rw (at, foreign) refl)
    | inl its ↦ elim (Bool-cases (eqb r.revision i.expected_revision)) [
      | inr old ↦ idle (rw (at, its, old) refl)
      | inl same ↦
          rewrote i.api_key_id r (updated_record i r) at (ground arith) refl refl
            (rw (at, its, same) refl)
    ]
  ]
]

revoke-KeyChange :
    (id owner : Text) (revision : ℕ) (s : ApiKeyStore)
    → KeyChange owner s (revoke id owner revision s).1
unfolding revoke revoke_from
revoke-KeyChange id owner revision s = elim (Option-cases (get s.records id)) [
  | inl missing ↦ idle (rw missing refl)
  | inr (r, at) ↦ elim (Bool-cases (r.owner_user_id == owner)) [
    | inr foreign ↦ idle (rw (at, foreign) refl)
    | inl its ↦ elim (Bool-cases (eqb r.revision revision)) [
      | inr old ↦ idle (rw (at, its, old) refl)
      | inl same ↦ removed id r at (ground arith) (rw (at, its, same) refl)
    ]
  ]
]

KeyChange-IsCoherent :
    (owner : Text) (s t : ApiKeyStore) → IsCoherent s → KeyChange owner s t → IsCoherent t
KeyChange-IsCoherent owner s t v (idle e) = rw e v
KeyChange-IsCoherent owner s t v (added r new free e) = rw e (record {
  unique = put-IsUnique s.records r.api_key_id r v.unique;
  id_kept = λ id q at. ground (arith, get-put s.records r.api_key_id id r, v.id_kept id q);
  indexed = λ id q at. ground (
    arith,
    get-put s.records r.api_key_id id r,
    get-put s.by_secret_hash r.secret_hash q.secret_hash r.api_key_id,
    v.indexed id q,
  );
  owned = λ h id leads. elim (Bool-cases (r.secret_hash == h)) [
    | inl same ↦ (
      r,
      ground (
        arith,
        get-put s.records r.api_key_id id r,
        get-put s.by_secret_hash r.secret_hash h r.api_key_id,
      ),
      ground arith,
    )
    | inr other ↦
        let (q, at, hash) =
          v.owned h id (ground (arith, get-put s.by_secret_hash r.secret_hash h r.api_key_id)) in
        (q, ground (arith, get-put s.records r.api_key_id id r), hash)
  ];
})
KeyChange-IsCoherent owner s t v (rewrote id r u at its same_id same_hash e) =
    let key = v.id_kept id r at in
    rw e (record {
      unique = put-IsUnique s.records r.api_key_id u v.unique;
      id_kept = λ j q there. ground (arith, get-put s.records r.api_key_id j u, v.id_kept j q);
      indexed = λ j q there.
          ground (arith, get-put s.records r.api_key_id j u, v.indexed j q, v.indexed id r at);
      owned = λ h j leads.
          let (q, there, hash) = v.owned h j leads in
          elim (Bool-cases (r.api_key_id == j)) [
            | inl same ↦ (u, ground (arith, get-put s.records r.api_key_id j u), ground arith)
            | inr other ↦ (q, ground (arith, get-put s.records r.api_key_id j u), hash)
          ];
    })
KeyChange-IsCoherent owner s t v (removed id r at its e) = rw e (record {
  unique = delete-IsUnique s.records id v.unique;
  id_kept = λ j q there. ground (arith, get-delete s.records id j, v.id_kept j q);
  indexed = λ j q there. ground (
    arith,
    get-delete s.records id j,
    get-delete s.by_secret_hash r.secret_hash q.secret_hash,
    v.indexed j q,
    v.indexed id r at,
  );
  owned = λ h j leads.
      let (q, there, hash) =
        v.owned h j (ground (arith, get-delete s.by_secret_hash r.secret_hash h)) in
      (
        q,
        ground (
          arith,
          get-delete s.records id j,
          get-delete s.by_secret_hash r.secret_hash h,
          v.indexed id r at,
        ),
        hash,
      );
})

-- Every operation keeps the keys and the index of their secrets in agreement.
pub step_key-IsCoherent :
    (c : KeyCommand) (s : ApiKeyStore) → IsCoherent s → IsCoherent (step_key c s)
unfolding step_key
step_key-IsCoherent (create_key r) s v =
    KeyChange-IsCoherent r.owner_user_id s _ v (create-KeyChange r s)
step_key-IsCoherent (update_key i) s v =
    KeyChange-IsCoherent i.owner_user_id s _ v (update-KeyChange i s)
step_key-IsCoherent (revoke_key id owner revision) s v =
    KeyChange-IsCoherent owner s _ v (revoke-KeyChange id owner revision s)
step_key-IsCoherent (revoke_all_keys owner) s v = (revoke_all-RevokesAll owner s v).coherent

module _ (owner : Text) (s t : ApiKeyStore) (v : IsCoherent s) (h : Text) (q : ApiKeyRecord)
    (found : find_by_secret_hash h s ≡ some q) (foreign : (q.owner_user_id == owner) ≡ false) where
  KeyChange-foreign : KeyChange owner s t → find_by_secret_hash h t ≡ some q
  unfolding find_by_secret_hash
  KeyChange-foreign change = elim (Option-cases (get s.by_secret_hash h)) [
    | inl nothing ↦ absurd (ground arith)
    | inr (j, leads) ↦ from_index j leads (ground arith) change
  ]
    where
      from_index :
          (j : Text)
          → get s.by_secret_hash h ≡ some j
          → get s.records j ≡ some q
          → KeyChange owner s t
          → find_by_secret_hash h t ≡ some q
      from_index j leads there (idle e) = rw e found
      from_index j leads there (added r new free e) = rw e (
          ground (
            arith,
            get-put s.by_secret_hash r.secret_hash h r.api_key_id,
            get-put s.records r.api_key_id j r,
          ))
      from_index j leads there (rewrote id r u at its same_id same_hash e) =
          rw e (ground (arith, v.id_kept id r at, get-put s.records r.api_key_id j u))
      from_index j leads there (removed id r at its e) = rw e (
          ground (
            arith,
            v.indexed j q there,
            v.indexed id r at,
            v.owned h j leads,
            get-delete s.by_secret_hash r.secret_hash h,
            get-delete s.records id j,
          ))

-- No operation on behalf of one owner changes or revokes a key of another: its secret still leads to
-- the same record.
pub step_key-foreign :
    (c : KeyCommand) (s : ApiKeyStore) (h : Text) (q : ApiKeyRecord)
    → IsCoherent s
    → find_by_secret_hash h s ≡ some q
    → (q.owner_user_id == key_actor c) ≡ false
    → find_by_secret_hash h (step_key c s) ≡ some q
unfolding step_key
step_key-foreign (create_key r) s h q v found foreign =
    KeyChange-foreign r.owner_user_id s _ v h q found foreign (create-KeyChange r s)
step_key-foreign (update_key i) s h q v found foreign =
    KeyChange-foreign i.owner_user_id s _ v h q found foreign (update-KeyChange i s)
step_key-foreign (revoke_key id owner revision) s h q v found foreign =
    KeyChange-foreign owner s _ v h q found foreign (revoke-KeyChange id owner revision s)
step_key-foreign (revoke_all_keys owner) s h q v found foreign =
    ground (arith, (revoke_all-RevokesAll owner s v).by_hash h)

pub empty-IsCoherent : IsCoherent empty_store
unfolding get IsUnique
empty-IsCoherent = record {
  unique = tt;
  id_kept = λ id r e. cc;
  indexed = λ id r e. cc;
  owned = λ h id e. absurd (ground arith);
}
