-- ===== src/Session/Upgrading.antt =====
-- lib/session/service.ts: what the upgrade of a session comes to.
use iam_pager.Base.{
  ℕ, zero, suc, ◌+◌, Text, true, false, none, some, ◌≡◌, refl, arith, Bool-cases, inl, inr, leb,
  eqb, length, subst, ◌≢◌, ◌<◌, ◌≤◌,
}
use iam_pager.Base.Map.{get, get-delete}
use iam_pager.Base.Exec.{returned, thrown}
use iam_pager.Session.{Session, SessionRecord, Authentication, authenticated, session_expiry}
use iam_pager.Session.Store.{
  SessionStore, find_by_credential_hash, current_at, Answer, ok, refused, stale_session,
}
use iam_pager.Session.Rotation.{upgraded}
use iam_pager.Session.Rotation
use iam_pager.Session.Coherence.{IsCoherent, IsCurrent}
use iam_pager.Session.Outcomes.{UpgradeOutcome, upgrade_outcome}
use iam_pager.Session.Service.{
  Surroundings, Result, Fault, SessionResolution, is_secret, max_generation_attempts,
  credential_update, weak_credential, weak_csrf_token, no_unique_credential, empty_user_id, revoke,
}
use iam_pager.Session.SignIn.{upgrade, upgrade_attempts, upgrade_answer, requested_upgrade}
use iam_pager.Session.Resolving.{find-IsFound, revoked-IsCoherent}

-- The session of the answer is authenticated as the user, one version later; the credential of the
-- answer leads to it, and any credential that led to the session before leads to nothing.
pub record IsSignedIn (e : Surroundings) (session : Session) (user_id : Text) (s : SessionStore)
    (r : SessionResolution) (t : SessionStore) : Type 0 where
  pub credential : Text
  pub stored : SessionRecord
  pub login : Authentication
  pub strong : is_secret credential ≡ true
  pub strong_token : is_secret login.csrf_token ≡ true
  pub handed_out : r.credential_to_set ≡ some (credential_update credential stored.session)
  pub leads : find_by_credential_hash (e.hash credential) t ≡ some stored
  pub same : stored.session ≡ r.session
  pub kind : r.session.kind ≡ authenticated login
  pub user : login.user_id ≡ user_id
  pub version : r.session.session_version ≡ session.session_version + 1
  pub replaced :
      (h : Text) (q : SessionRecord)
      → find_by_credential_hash h s ≡ some q
      → q.session.session_id ≡ session.session_id
      → find_by_credential_hash h t ≡ none

-- The user is named and the session has not ended.
pub record IsReady (e : Surroundings) (session : Session) (user_id : Text) : Type 0 where
  pub user_named : length user_id ≢ 0
  pub lasts : e.now < session_expiry session

abbrev pub IsTaken : Surroundings → SessionStore → ℕ → Type 0
IsTaken e s n = (id : Text) × (get s.credential_index (e.hash (e.credentials n)) ≡ some id)

-- Why the first `limit` attempts of an upgrade gave no session
pub data AttemptsFailure (e : Surroundings) (limit : ℕ) (s : SessionStore) (f : Fault)
    : Type 0 where
  malformed :
      (n : ℕ)
      → n < limit
      → is_secret (e.credentials n) ≡ false
      → f ≡ weak_credential
      → AttemptsFailure e limit s f
  malformed_token :
      (n : ℕ)
      → n < limit
      → is_secret (e.csrf_tokens n) ≡ false
      → f ≡ weak_csrf_token
      → AttemptsFailure e limit s f
  exhausted :
      ((n : ℕ) → n < limit → IsTaken e s n) → f ≡ no_unique_credential → AttemptsFailure e limit s f

-- What the upgrade of a session can come to
pub data SignInOutcome (e : Surroundings) (session : Session) (user_id : Text) (s : SessionStore)
    (result : Result (Answer SessionResolution)) : Type 0 where
  unnamed :
      length user_id ≡ 0
      → result ≡ (thrown empty_user_id, s)
      → SignInOutcome e session user_id s result
  failed :
      (f : Fault)
      → IsReady e session user_id
      → AttemptsFailure e max_generation_attempts s f
      → result ≡ (thrown f, s)
      → SignInOutcome e session user_id s result
  expired :
      (t : SessionStore)
      → length user_id ≢ 0
      → session_expiry session ≤ e.now
      → IsCoherent t
      → ((h : Text) (q : SessionRecord)
          → find_by_credential_hash h s ≡ some q
          → q.session.session_id ≡ session.session_id
          → q.session.session_version ≡ session.session_version
          → find_by_credential_hash h t ≡ none)
      → result ≡ (returned (refused stale_session), t)
      → SignInOutcome e session user_id s result
  stale :
      IsReady e session user_id
      → ((r : SessionRecord) → ¬ IsCurrent session.session_id session.session_version s r)
      → result ≡ (returned (refused stale_session), s)
      → SignInOutcome e session user_id s result
  done :
      (before : SessionRecord) (r : SessionResolution) (t : SessionStore)
      → IsReady e session user_id
      → IsCurrent session.session_id session.session_version s before
      → IsCoherent t
      → IsSignedIn e session user_id s r t
      → result ≡ (returned (ok r), t)
      → SignInOutcome e session user_id s result

-- What is current is found.
IsCurrent-found :
    (id : Text) (version : ℕ) (s : SessionStore) (r : SessionRecord)
    → IsCurrent id version s r
    → current_at id version s ≡ some r
unfolding current_at
IsCurrent-found id version s r c = ground (arith, c.stands, c.unrevoked, c.expected)

module _ (e : Surroundings) (session : Session) (user_id : Text) (s : SessionStore)
    (v : IsCoherent s) where
  -- The revocation of a session ends the credential that led to it.
  revoked-dead :
      (h : Text) (q : SessionRecord)
      → find_by_credential_hash h s ≡ some q
      → q.session.session_id ≡ session.session_id
      → q.session.session_version ≡ session.session_version
      → find_by_credential_hash h
          ((Rotation.revoke session.session_id session.session_version e.now s).1)
        ≡ none
  unfolding find_by_credential_hash Rotation.revoke Rotation.revoke_from Rotation.end_session
  revoked-dead h q found its version =
      let f = find-IsFound h q s v found in
      let stands : get s.records session.session_id ≡ some q =
        subst (λ id. get s.records id ≡ some q) its f.stands in
      let current =
        IsCurrent-found session.session_id session.session_version s q
          (record { stands = stands; unrevoked = f.live; expected = version }) in
      ground (arith, current, f.own, get-delete s.credential_index q.credential_hash h)

  module _ (ready : IsReady e session user_id) where
    upgraded-SignInOutcome :
        (n : ℕ) (again : SessionStore → Result (Answer SessionResolution))
        (result : Answer SessionRecord × SessionStore)
        → is_secret (e.credentials n) ≡ true
        → is_secret (e.csrf_tokens n) ≡ true
        → (IsTaken e s n → SignInOutcome e session user_id s (again s))
        → UpgradeOutcome (requested_upgrade e session user_id n) s result
        → SignInOutcome e session user_id s (upgrade_answer (e.credentials n) again result)
    upgraded-SignInOutcome n again result strong fit next (UpgradeOutcome.stale missing k) = rw k (
        stale ready
          (λ r c. absurd (
            ground
              (arith, IsCurrent-found session.session_id session.session_version s r c, missing)))
          refl)
    upgraded-SignInOutcome n again result strong fit next
          (UpgradeOutcome.collided r current id taken k) =
        rw k (next (id, taken))
    upgraded-SignInOutcome n again result strong fit next
          (UpgradeOutcome.done r t current w leads dead others k) =
        let u = upgraded (requested_upgrade e session user_id n) r in
        let answer : SessionResolution = record {
          session = u.session;
          credential_to_set = some (credential_update (e.credentials n) u.session);
        } in
        rw k (
          done r answer t ready current w
            (record {
              credential = e.credentials n;
              stored = u;
              login = record {
                user_id = user_id;
                authenticated_at = e.now;
                idle_expires_at = (requested_upgrade e session user_id n).idle_expires_at;
                csrf_token = e.csrf_tokens n;
              };
              strong = strong;
              strong_token = fit;
              handed_out = refl;
              leads = leads;
              same = refl;
              kind = refl;
              user = refl;
              version = ground (arith, current.expected);
              replaced = λ h q found its.
                  let f = find-IsFound h q s v found in
                  let one : q ≡ r = ground (arith, f.stands, current.stands) in
                  subst (λ c. find_by_credential_hash c t ≡ none)
                    (subst (λ c. c.credential_hash ≡ h) one f.own) dead;
            })
            refl)

    attempts_outcome :
        (left n : ℕ)
        → n + left ≡ max_generation_attempts
        → ((k : ℕ) → k < n → IsTaken e s k)
        → SignInOutcome e session user_id s (upgrade_attempts e session user_id left n s)
    unfolding upgrade_attempts
    attempts_outcome zero n sum before =
        failed no_unique_credential ready (exhausted (λ k less. before k (omega arith)) refl) refl
    attempts_outcome (suc left) n sum before =
        let next : IsTaken e s n
            → SignInOutcome e session user_id s
                (upgrade_attempts e session user_id left (suc n) s) =
          λ taken. attempts_outcome left (suc n) (omega arith) (λ k less.
            elim (Bool-cases (eqb k n)) [
              | inl last ↦ subst (IsTaken e s) (ground arith) taken
              | inr earlier ↦ before k (ground arith)
            ]) in
        elim (Bool-cases (is_secret (e.credentials n))) [
          | inr weak ↦
              rw weak (failed weak_credential ready (malformed n (omega arith) weak refl) refl)
          | inl strong ↦ elim (Bool-cases (is_secret (e.csrf_tokens n))) [
            | inr weak ↦
                rw (strong, weak)
                  (failed weak_csrf_token ready (malformed_token n (omega arith) weak refl) refl)
            | inl fit ↦
                rw (strong, fit)
                  (upgraded-SignInOutcome n (upgrade_attempts e session user_id left (suc n)) _
                    strong fit next (upgrade_outcome (requested_upgrade e session user_id n) s v))
          ]
        ]

-- On a coherent store the upgrade of a session fails on an empty user, or because of the generators:
-- a secret of the wrong form, or no unused credential among the permitted attempts; then nothing
-- changes. It is refused as stale where the session has ended, and then the session's credential
-- leads to nothing, or where the store has no such session at this version, and then nothing
-- changes. Otherwise it signs the user in, with a credential that replaces the session's.
pub upgrade-SignInOutcome :
    (e : Surroundings) (session : Session) (user_id : Text) (s : SessionStore)
    → IsCoherent s
    → SignInOutcome e session user_id s (upgrade e session user_id s)
unfolding upgrade revoke
upgrade-SignInOutcome e session user_id s v = elim (Bool-cases (eqb (length user_id) 0)) [
  | inl empty ↦ rw empty (unnamed (ground arith) refl)
  | inr named ↦ elim (Bool-cases (leb (session_expiry session) e.now)) [
    | inr lasts ↦
        rw (named, lasts)
          (attempts_outcome e session user_id s v
            (record { user_named = λ z. ground arith; lasts = ground arith })
            max_generation_attempts 0 refl (λ k less. absurd (omega arith)))
    | inl ended ↦
        let t = (Rotation.revoke session.session_id session.session_version e.now s).1 in
        rw (named, ended)
          (expired t (λ z. ground arith) (ground arith)
            (revoked-IsCoherent session.session_id session.session_version e.now s v)
            (revoked-dead e session user_id s v) refl)
  ]
]
