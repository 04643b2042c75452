-- ===== src/Session/Safety.antt =====
-- lib/session/memory-repository.ts: what holds through any history of operations.
use iam_pager.Base.{
  Text, List, [], ◌∷◌, none, some, ◌≡◌, refl, ◌==◌, arith, Option-cases, Bool-cases, inl, inr,
  subst, All,
}
use iam_pager.Base.Map.{get, delete, get-put, get-delete}
use iam_pager.Session.{SessionRecord}
use iam_pager.Session.Store.{SessionStore, find_by_credential_hash, empty_store}
use iam_pager.Session.Rotation.{upgraded, SessionUpgrade}
use iam_pager.Session.Coherence.{
  IsCoherent, store_record-IsCoherent, end_session-IsCoherent, empty-IsCoherent,
}
use iam_pager.Session.Transition.{
  Command, step, StartsLive, created, rotated, Transition, idle, began, rewrote, turned, closed,
  step-Transition,
}

pub created-IsCoherent :
    (r : SessionRecord) (s : SessionStore)
    → IsCoherent s
    → r.revoked_at ≡ none
    → get s.records r.session.session_id ≡ none
    → get s.credential_index r.credential_hash ≡ none
    → IsCoherent (created r s)
created-IsCoherent r s v live new free =
    let id = r.session.session_id in
    record {
      id_kept = λ j q e. ground (arith, get-put s.records id j r, v.id_kept j q);
      indexed = λ j q e k. ground (
        arith,
        get-put s.records id j r,
        get-put s.credential_index r.credential_hash q.credential_hash id,
        v.indexed j q,
      );
      owned = λ h j e. elim (Bool-cases (r.credential_hash == h)) [
        | inl same ↦ (
          r,
          ground
              (arith, get-put s.records id j r, get-put s.credential_index r.credential_hash h id),
          ground arith,
          live,
        )
        | inr other ↦
            let (q, there, hash, unrev) =
              v.owned h j (ground (arith, get-put s.credential_index r.credential_hash h id)) in
            (q, ground (arith, get-put s.records id j r), hash, unrev)
      ];
    }

pub rotated-IsCoherent :
    (i : SessionUpgrade) (r : SessionRecord) (s : SessionStore)
    → IsCoherent s
    → get s.records r.session.session_id ≡ some r
    → r.revoked_at ≡ none
    → get s.credential_index i.credential_hash ≡ none
    → IsCoherent (rotated r.session.session_id i r s)
rotated-IsCoherent i r s v stands live free =
    let id = r.session.session_id in
    let left = delete s.credential_index r.credential_hash in
    record {
      id_kept = λ j q e. ground (arith, get-put s.records id j (upgraded i r), v.id_kept j q);
      indexed = λ j q e k. ground (
        arith,
        get-put s.records id j (upgraded i r),
        get-put left i.credential_hash q.credential_hash id,
        get-delete s.credential_index r.credential_hash q.credential_hash,
        v.indexed j q,
        v.indexed id r stands live,
      );
      owned = λ h j e. elim (Bool-cases (i.credential_hash == h)) [
        | inl same ↦ (
          upgraded i r,
          ground
              (arith, get-put s.records id j (upgraded i r), get-put left i.credential_hash h id),
          ground arith,
          refl,
        )
        | inr other ↦
            let (q, there, hash, unrev) = v.owned h j (
              ground (
                arith,
                get-put left i.credential_hash h id,
                get-delete s.credential_index r.credential_hash h,
              )) in
            (
              q,
              ground (
                arith,
                get-put s.records id j (upgraded i r),
                get-put left i.credential_hash h id,
                get-delete s.credential_index r.credential_hash h,
              ),
              hash,
              unrev,
            )
      ];
    }

Transition-IsCoherent :
    (c : Command) (s t : SessionStore)
    → StartsLive c
    → IsCoherent s
    → Transition c s t
    → IsCoherent t
Transition-IsCoherent c s t live v (idle e) = rw e v
Transition-IsCoherent c s t live v (began r is new free e) =
    rw e (created-IsCoherent r s v (subst StartsLive is live) new free)
Transition-IsCoherent c s t live v
      (rewrote id version r u k same_id same_version same_hash unrev e) =
    rw e (store_record-IsCoherent id r u s v k.stands k.unrevoked same_id same_hash unrev)
Transition-IsCoherent c s t live v (turned i r is k free e) =
    let its = v.id_kept i.session_id r k.stands in
    rw e (rotated-IsCoherent i r s v (ground (arith, k.stands)) k.unrevoked free)
Transition-IsCoherent c s t live v (closed id version at r k e) =
    rw e (end_session-IsCoherent id at r s v k.stands k.unrevoked)

-- Every operation keeps the records and the credential index in agreement.
pub step-IsCoherent :
    (c : Command) (s : SessionStore) → StartsLive c → IsCoherent s → IsCoherent (step c s)
step-IsCoherent c s live v = Transition-IsCoherent c s (step c s) live v (step-Transition c s)

-- The operations one after the other
unfoldable pub run : List Command → SessionStore → SessionStore
run [] s = s
run (c ∷ cs) s = run cs (step c s)

run-IsCoherent :
    (cs : List Command) (s : SessionStore)
    → All StartsLive cs
    → IsCoherent s
    → IsCoherent (run cs s)
unfolding run
run-IsCoherent [] s live v = v
run-IsCoherent (c ∷ cs) s live v =
    run-IsCoherent cs (step c s) live.1 (step-IsCoherent c s live.0 v)

-- What a credential leads to has that credential and is not revoked.
pub find-live :
    (h : Text) (r : SessionRecord) (s : SessionStore)
    → IsCoherent s
    → find_by_credential_hash h s ≡ some r
    → (r.credential_hash ≡ h) × (r.revoked_at ≡ none)
unfolding find_by_credential_hash
find-live h r s v e = elim (Option-cases (get s.credential_index h)) [
  | inl nothing ↦ absurd (ground arith)
  | inr (id, leads) ↦
      let (q, there, hash, unrev) = v.owned h id leads in
      let same : q ≡ r = ground arith in (rw (← same) hash, rw (← same) unrev)
]

-- After any history of operations that creates live sessions only, a credential that leads to a
-- session is that session's present one, and the session is not revoked.
pub history-live :
    (cs : List Command) (h : Text) (r : SessionRecord)
    → All StartsLive cs
    → find_by_credential_hash h (run cs empty_store) ≡ some r
    → (r.credential_hash ≡ h) × (r.revoked_at ≡ none)
history-live cs h r live e =
    find-live h r (run cs empty_store) (run-IsCoherent cs empty_store live empty-IsCoherent) e
