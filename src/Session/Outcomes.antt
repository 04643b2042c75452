-- ===== src/Session/Outcomes.antt =====
-- lib/session/memory-repository.ts: what the operations that end or replace a credential come to.
use iam_pager.Base.{
  Text, none, some, false, if◌then◌else◌, ◌≡◌, ◌≢◌, refl, ◌==◌, arith, Option-cases, inl, inr,
}
use iam_pager.Base.Map.{get, delete, get-put, get-delete}
use iam_pager.Session.{SessionRecord, Authentication, guest, authenticated, SessionKind}
use iam_pager.Session.Store.{
  SessionStore, current_at, find_by_credential_hash, Answer, ok, refused, stale_session,
  not_authenticated, invalid_csrf, credential_collision,
}
use iam_pager.Session.Rotation.{
  upgrade, upgrade_from, logout, logout_from, logout_as, end_session, ended, upgraded,
  SessionUpgrade, Logout,
}
use iam_pager.Session.Coherence.{
  IsCoherent, IsCurrent, end_session-IsCoherent, current_at-IsCurrent,
}
use iam_pager.Session.Transition.{rotated}
use iam_pager.Base.{text_dec}
use iam_pager.Session.Safety.{rotated-IsCoherent}
use iam_pager.Session.Csrf.{csrf_tokens_match_lem}

-- What an upgrade can come to
pub data UpgradeOutcome (i : SessionUpgrade) (s : SessionStore)
    (result : Answer SessionRecord × SessionStore) : Type 0 where
  stale :
      current_at i.session_id i.expected_version s ≡ none
      → result ≡ (refused stale_session, s)
      → UpgradeOutcome i s result
  collided :
      (r : SessionRecord)
      → IsCurrent i.session_id i.expected_version s r
      → (id : Text) → get s.credential_index i.credential_hash ≡ some id
      → result ≡ (refused credential_collision, s)
      → UpgradeOutcome i s result
  done :
      (r : SessionRecord) (t : SessionStore)
      → IsCurrent i.session_id i.expected_version s r
      → IsCoherent t
      → find_by_credential_hash i.credential_hash t ≡ some (upgraded i r)
      → find_by_credential_hash r.credential_hash t ≡ none
      → ((h : Text)
          → (i.credential_hash == h) ≡ false
          → (r.credential_hash == h) ≡ false
          → find_by_credential_hash h t ≡ find_by_credential_hash h s)
      → result ≡ (ok (upgraded i r), t)
      → UpgradeOutcome i s result

-- Another credential leads where it led.
other_credential :
    (id h : Text) (r u : SessionRecord) (s t : SessionStore)
    → IsCoherent s
    → get s.records id ≡ some r
    → r.revoked_at ≡ none
    → (r.credential_hash == h) ≡ false
    → ((j : Text) → get t.records j ≡ (if id == j then some u else get s.records j))
    → get t.credential_index h ≡ get s.credential_index h
    → find_by_credential_hash h t ≡ find_by_credential_hash h s
unfolding find_by_credential_hash
other_credential id h r u s t v stands live other records same =
    elim (Option-cases (get s.credential_index h)) [
      | inl nothing ↦ ground (arith, same)
      | inr (j, leads) ↦
          let (q, there, hash, unrev) = v.owned h j leads in ground (arith, same, records j)
    ]

upgrade_done :
    (i : SessionUpgrade) (s : SessionStore) (r : SessionRecord)
    → IsCoherent s
    → IsCurrent i.session_id i.expected_version s r
    → get s.credential_index i.credential_hash ≡ none
    → UpgradeOutcome i s (ok (upgraded i r), rotated r.session.session_id i r s)
unfolding find_by_credential_hash
upgrade_done i s r v k free =
    let id = r.session.session_id in
    let its = v.id_kept i.session_id r k.stands in
    let stands : get s.records id ≡ some r = ground (arith, k.stands) in
    let known = v.indexed id r stands k.unrevoked in
    let left = delete s.credential_index r.credential_hash in
    let new = i.credential_hash in
    let old = r.credential_hash in
    done r (rotated id i r s) k (rotated-IsCoherent i r s v stands k.unrevoked free)
      (ground (arith, get-put left new new id, get-put s.records id id (upgraded i r)))
      (ground (arith, get-put left new old id, get-delete s.credential_index old old))
      (λ h a b.
        other_credential id h r (upgraded i r) s (rotated id i r s) v stands k.unrevoked b
          (λ j. get-put s.records id j (upgraded i r))
          (ground (arith, get-put left new h id, get-delete s.credential_index old h)))
      refl

-- On a coherent store an upgrade is refused, with nothing changed, for a session that is missing,
-- revoked or of another version, and for a credential that is in use, even the session's own; or
-- the new credential leads to the upgraded session, the old one to nothing, and any other credential
-- where it led.
pub upgrade_outcome :
    (i : SessionUpgrade) (s : SessionStore) → IsCoherent s → UpgradeOutcome i s (upgrade i s)
unfolding upgrade upgrade_from
upgrade_outcome i s v = elim (Option-cases (current_at i.session_id i.expected_version s)) [
  | inl missing ↦ stale missing (rw missing refl)
  | inr (r, found) ↦
      let k = current_at-IsCurrent i.session_id i.expected_version s r found in
      let its = v.id_kept i.session_id r k.stands in
      elim (Option-cases (get s.credential_index i.credential_hash)) [
        | inr (id, taken) ↦ collided r k id taken (rw (found, taken) refl)
        | inl free ↦ rw (found, free) (upgrade_done i s r v k free)
      ]
]

-- What a logout can come to
pub data LogoutOutcome (i : Logout) (s : SessionStore) (result : Answer (Unit {0}) × SessionStore)
    : Type 0 where
  stale :
      current_at i.session_id i.expected_version s ≡ none
      → result ≡ (refused stale_session, s)
      → LogoutOutcome i s result
  anonymous :
      (r : SessionRecord)
      → IsCurrent i.session_id i.expected_version s r
      → r.session.kind ≡ guest
      → result ≡ (refused not_authenticated, s)
      → LogoutOutcome i s result
  forged :
      (r : SessionRecord) (a : Authentication)
      → IsCurrent i.session_id i.expected_version s r
      → r.session.kind ≡ authenticated a
      → a.csrf_token ≢ i.csrf_token
      → result ≡ (refused invalid_csrf, s)
      → LogoutOutcome i s result
  done :
      (r : SessionRecord) (a : Authentication) (t : SessionStore)
      → IsCurrent i.session_id i.expected_version s r
      → r.session.kind ≡ authenticated a
      → a.csrf_token ≡ i.csrf_token
      → IsCoherent t
      → find_by_credential_hash r.credential_hash t ≡ none
      → ((h : Text)
          → (r.credential_hash == h) ≡ false
          → find_by_credential_hash h t ≡ find_by_credential_hash h s)
      → result ≡ (ok tt, t)
      → LogoutOutcome i s result

logout_authenticated :
    (i : Logout) (s : SessionStore) (r : SessionRecord) (a : Authentication)
    → IsCoherent s
    → IsCurrent i.session_id i.expected_version s r
    → r.session.kind ≡ authenticated a
    → LogoutOutcome i s (logout_as i (authenticated a) r s)
unfolding end_session find_by_credential_hash
logout_authenticated i s r a v k is = elim (text_dec a.csrf_token i.csrf_token) [
  | no other ↦
      forged r a k is other (ground (arith, csrf_tokens_match_lem a.csrf_token i.csrf_token))
  | yes same ↦
      let id = i.session_id in
      let at = i.logged_out_at in
      let old = r.credential_hash in
      done r a (end_session id at r s) k is same
        (end_session-IsCoherent id at r s v k.stands k.unrevoked)
        (ground (arith, get-delete s.credential_index old old))
        (λ h b.
          other_credential id h r (ended at r) s (end_session id at r s) v k.stands k.unrevoked b
            (λ j. get-put s.records id j (ended at r))
            (ground (arith, get-delete s.credential_index old h)))
        (ground (arith, csrf_tokens_match_lem a.csrf_token i.csrf_token))
]

logout_as-LogoutOutcome :
    (i : Logout) (s : SessionStore) (r : SessionRecord) (kind : SessionKind)
    → IsCoherent s
    → IsCurrent i.session_id i.expected_version s r
    → r.session.kind ≡ kind
    → LogoutOutcome i s (logout_as i kind r s)
logout_as-LogoutOutcome i s r guest v k is = anonymous r k is refl
logout_as-LogoutOutcome i s r (authenticated a) v k is = logout_authenticated i s r a v k is

-- On a coherent store a logout is refused, with nothing changed, for a session that is missing,
-- revoked or of another version, for a guest, and for a token other than the session's; or the
-- session's credential leads to nothing, and any other credential where it led.
pub logout_outcome : (i : Logout) (s : SessionStore) → IsCoherent s → LogoutOutcome i s (logout i s)
unfolding logout logout_from
logout_outcome i s v = elim (Option-cases (current_at i.session_id i.expected_version s)) [
  | inl missing ↦ stale missing (rw missing refl)
  | inr (r, found) ↦
      let k = current_at-IsCurrent i.session_id i.expected_version s r found in
      rw found (logout_as-LogoutOutcome i s r r.session.kind v k refl)
]
