-- ===== src/Session/Coherence.antt =====
-- lib/session/memory-repository.ts: the records and the credential index agree.
use iam_pager.Base.{ℕ, Text, none, some, ◌≡◌, ◌==◌, arith, Option-cases, Bool-cases, inl, inr, eqb}
use iam_pager.Base.Map.{get, get-put, get-delete}
use iam_pager.Session.{SessionRecord}
use iam_pager.Session.Store.{SessionStore, store_record, current_at, empty_store}
use iam_pager.Session.Rotation.{end_session, ended}

-- Every record stands under its own session, and the index leads from a credential's hash to a
-- session exactly when the session's record has that credential and is not revoked.
pub record IsCoherent (s : SessionStore) : Type 0 where
  pub id_kept :
      (id : Text) (r : SessionRecord) → get s.records id ≡ some r → r.session.session_id ≡ id
  pub indexed :
      (id : Text) (r : SessionRecord)
      → get s.records id ≡ some r
      → r.revoked_at ≡ none
      → get s.credential_index r.credential_hash ≡ some id
  pub owned :
      (h id : Text)
      → get s.credential_index h ≡ some id
      → (r : SessionRecord) × (get s.records id ≡ some r)
        × (r.credential_hash ≡ h)
        × (r.revoked_at ≡ none)

pub empty-IsCoherent : IsCoherent empty_store
unfolding get
empty-IsCoherent = record {
  id_kept = λ id r e. cc;
  indexed = λ id r e k. cc;
  owned = λ h id e. absurd (ground arith);
}

-- The record that an operation found under the expected version
pub record IsCurrent (id : Text) (version : ℕ) (s : SessionStore) (r : SessionRecord) : Type 0 where
  pub stands : get s.records id ≡ some r
  pub unrevoked : r.revoked_at ≡ none
  pub expected : r.session.session_version ≡ version

pub current_at-IsCurrent :
    (id : Text) (version : ℕ) (s : SessionStore) (r : SessionRecord)
    → current_at id version s ≡ some r
    → IsCurrent id version s r
unfolding current_at
current_at-IsCurrent id version s r e = elim (Option-cases (get s.records id)) [
  | inl missing ↦ absurd (ground arith)
  | inr (q, there) ↦ elim (Option-cases q.revoked_at) [
    | inr (at, revoked) ↦ absurd (ground arith)
    | inl live ↦ elim (Bool-cases (eqb q.session.session_version version)) [
      | inr old ↦ absurd (ground arith)
      | inl same ↦
          let found : q ≡ r = ground arith in
          rw (← found) (record { stands = there; unrevoked = live; expected = ground arith })
    ]
  ]
]

-- Writing a live record back with its credential
pub store_record-IsCoherent :
    (id : Text) (r u : SessionRecord) (s : SessionStore)
    → IsCoherent s
    → get s.records id ≡ some r
    → r.revoked_at ≡ none
    → u.session.session_id ≡ r.session.session_id
    → u.credential_hash ≡ r.credential_hash
    → u.revoked_at ≡ none
    → IsCoherent (store_record id u s)
store_record-IsCoherent id r u s v stands live same_id same_hash unrevoked = record {
  id_kept = λ j q e. ground (arith, get-put s.records id j u, v.id_kept j q, v.id_kept id r stands);
  indexed = λ j q e k.
      ground (arith, get-put s.records id j u, v.indexed j q, v.indexed id r stands live);
  owned = λ h j e.
      let (q, there, hash, unrev) = v.owned h j e in
      elim (Bool-cases (id == j)) [
        | inl same ↦ (u, ground (arith, get-put s.records id j u), ground arith, unrevoked)
        | inr other ↦ (q, ground (arith, get-put s.records id j u), hash, unrev)
      ];
}

-- A session that ends takes its credential out of the index.
pub end_session-IsCoherent :
    (id : Text) (at : ℕ) (r : SessionRecord) (s : SessionStore)
    → IsCoherent s
    → get s.records id ≡ some r
    → r.revoked_at ≡ none
    → IsCoherent (end_session id at r s)
unfolding end_session
end_session-IsCoherent id at r s v stands live = record {
  id_kept = λ j q e.
      ground (arith, get-put s.records id j (ended at r), v.id_kept j q, v.id_kept id r stands);
  indexed = λ j q e k. ground (
    arith,
    get-put s.records id j (ended at r),
    get-delete s.credential_index r.credential_hash q.credential_hash,
    v.indexed j q,
    v.indexed id r stands live,
  );
  owned = λ h j e.
      let (q, there, hash, unrev) =
        v.owned h j (ground (arith, get-delete s.credential_index r.credential_hash h)) in
      (
        q,
        ground (
          arith,
          get-put s.records id j (ended at r),
          get-delete s.credential_index r.credential_hash h,
        ),
        hash,
        unrev,
      );
}
