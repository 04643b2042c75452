-- ===== src/Session/Resolving.antt =====
-- lib/session/service.ts: what the resolution of a presented credential gives.
use iam_pager.Base.{
  true, subst, ℕ, ◌+◌, ◌<◌, ◌≤◌, Text, Option, none, some, ◌≡◌, refl, arith, Option-cases,
  Bool-cases, inl, inr, leb, sym,
}
use iam_pager.Base.Map.{get, get-put}
use iam_pager.Base.Exec.{returned, thrown}
use iam_pager.Session.{
  Session, SessionRecord, SessionKind, guest, authenticated, session_expiry, expiry_of,
}
use iam_pager.Session.Store.{
  SessionStore, find_by_credential_hash, renew, renewed, renewed_kind, store_record, current_at,
}
use iam_pager.Session.Rotation
use iam_pager.Session.Coherence.{IsCoherent, store_record-IsCoherent}
use iam_pager.Session.Transition.{revoke_session, step}
use iam_pager.Session.Safety.{step-IsCoherent}
use iam_pager.Session.Service.{
  is_valid_config, Surroundings, credential_update, resolve_renewed, Result, Fault,
  SessionResolution, guest_record, guest_resolution, is_secret, create_guest, resolve,
  resolve_record, max_generation_attempts, idle_limit,
}
use iam_pager.Session.Guests.{GuestFailure, GuestOutcome, create_guest_outcome}

-- The credential that the client holds after the answer: the one to set, else the one presented
abbrev pub held : Option Text → SessionResolution → Option Text
held presented r = elim r.credential_to_set [ some c ↦ some c.value | none ↦ presented ]

-- The answer's session has not expired, and the credential that the client then holds leads to it.
pub record IsLive (e : Surroundings) (presented : Option Text) (r : SessionResolution)
    (t : SessionStore) : Type 0 where
  pub unexpired : e.now < session_expiry r.session
  pub credential : Text
  pub holds : held presented r ≡ some credential
  pub stored : SessionRecord
  pub leads : find_by_credential_hash (e.hash credential) t ≡ some stored
  pub same : stored.session ≡ r.session

abbrev pub account_of : SessionKind → Option Text
account_of guest = none
account_of (authenticated a) = some a.user_id

-- The record of a session that the presented credential leads to and that has not ended
pub record Admits (e : Surroundings) (presented : Option Text) (s : SessionStore)
    (r : SessionRecord) : Type 0 where
  pub credential : Text
  pub is_presented : presented ≡ some credential
  pub proper : is_secret credential ≡ true
  pub leads : find_by_credential_hash (e.hash credential) s ≡ some r
  pub lasts : e.now < session_expiry r.session

-- The answer goes on with the session `before`, which was seen not long ago.
pub record Continues (e : Surroundings) (before after : Session) : Type 0 where
  pub same_id : after.session_id ≡ before.session_id
  pub same_version : after.session_version ≡ before.session_version
  pub same_user : account_of after.kind ≡ account_of before.kind
  pub seen : e.now < after.last_seen_at + e.config.renewal_threshold_ms

-- What the resolution of a credential can come to
pub data ResolveOutcome (e : Surroundings) (presented : Option Text) (s : SessionStore)
    (result : Result SessionResolution) : Type 0 where
  failed :
      (f : Fault) (t : SessionStore)
      → ((r : SessionRecord) → ¬ Admits e presented s r)
      → GuestFailure e max_generation_attempts t f
      → IsCoherent t
      → result ≡ (thrown f, t)
      → ResolveOutcome e presented s result
  newcomer :
      (r : SessionResolution) (t : SessionStore)
      → ((q : SessionRecord) → ¬ Admits e presented s q)
      → r.session.kind ≡ guest
      → IsCoherent t
      → IsLive e presented r t
      → result ≡ (returned r, t)
      → ResolveOutcome e presented s result
  continued :
      (q : SessionRecord) (r : SessionResolution) (t : SessionStore)
      → Admits e presented s q
      → Continues e q.session r.session
      → IsCoherent t
      → IsLive e presented r t
      → result ≡ (returned r, t)
      → ResolveOutcome e presented s result

module _ (e : Surroundings) (presented : Option Text) (s : SessionStore)
    (positive : 0 < e.config.guest_absolute_lifetime_ms)
    (unknown : (r : SessionRecord) → ¬ Admits e presented s r) where
  GuestOutcome-ResolveOutcome :
      (t : SessionStore) (result : Result SessionResolution)
      → IsCoherent t
      → GuestOutcome e e.now max_generation_attempts t result
      → ResolveOutcome e presented s result
  GuestOutcome-ResolveOutcome t result v (GuestOutcome.failed f why k) = failed f t unknown why v k
  GuestOutcome-ResolveOutcome t result v (GuestOutcome.done n u less strong w leads others k) =
      newcomer (guest_resolution e e.now n) u unknown refl w
        (record {
          unexpired = omega arith;
          credential = e.credentials n;
          holds = refl;
          stored = guest_record e e.now n;
          leads = leads;
          same = refl;
        })
        k

  create_guest_resolves :
      (t : SessionStore) → IsCoherent t → ResolveOutcome e presented s (create_guest e e.now t)
  create_guest_resolves t v = GuestOutcome-ResolveOutcome t _ v (create_guest_outcome e e.now t v)

-- Renewal does not bring the end of a session forward.
renewed_kind-expiry :
    (till : Option ℕ) (k : SessionKind) (absolute : ℕ)
    → expiry_of k absolute ≤ expiry_of (renewed_kind till k) absolute
renewed_kind-expiry till guest absolute = omega arith
renewed_kind-expiry none (authenticated a) absolute = omega arith
renewed_kind-expiry (some till) (authenticated a) absolute = ground arith

-- The record that a credential leads to stands under its own session.
pub record IsFound (h : Text) (r : SessionRecord) (s : SessionStore) : Type 0 where
  pub stands : get s.records r.session.session_id ≡ some r
  pub leads : get s.credential_index h ≡ some r.session.session_id
  pub live : r.revoked_at ≡ none
  pub own : r.credential_hash ≡ h

pub find-IsFound :
    (h : Text) (r : SessionRecord) (s : SessionStore)
    → IsCoherent s
    → find_by_credential_hash h s ≡ some r
    → IsFound h r s
unfolding find_by_credential_hash
find-IsFound h r s v e = elim (Option-cases (get s.credential_index h)) [
  | inl nothing ↦ absurd (ground arith)
  | inr (id, leads) ↦
      let (q, there, hash, unrev) = v.owned h id leads in
      let same : q ≡ r = ground arith in
      let its : r.session.session_id ≡ id = v.id_kept id r (ground arith) in
      record {
        stands = ground (arith, its);
        leads = ground (arith, its);
        live = subst (λ u. u.revoked_at ≡ none) same unrev;
        own = subst (λ u. u.credential_hash ≡ h) same hash;
      }
]

-- A renewal of the record that a credential leads to succeeds, and the credential leads to what it
-- wrote.
renew-found :
    (h : Text) (r : SessionRecord) (s : SessionStore) (seen : ℕ) (till : Option ℕ)
    → IsFound h r s
    → renew r.session.session_id r.session.session_version seen till s
      ≡ (some (renewed seen till r), store_record r.session.session_id (renewed seen till r) s)
unfolding renew current_at
renew-found h r s seen till f = rw (f.stands, f.live) (ground arith)

renewed-leads :
    (h : Text) (r u : SessionRecord) (s : SessionStore)
    → IsFound h r s
    → find_by_credential_hash h (store_record r.session.session_id u s) ≡ some u
unfolding find_by_credential_hash
renewed-leads h r u s f =
    let id = r.session.session_id in ground (arith, f.leads, get-put s.records id id u)

pub revoked-IsCoherent :
    (id : Text) (version at : ℕ) (s : SessionStore)
    → IsCoherent s
    → IsCoherent (Rotation.revoke id version at s).1
unfolding step
revoked-IsCoherent id version at s v = step-IsCoherent (revoke_session id version at) s tt v

renewed_kind-user :
    (till : Option ℕ) (k : SessionKind) → account_of (renewed_kind till k) ≡ account_of k
renewed_kind-user till guest = refl
renewed_kind-user till (authenticated a) = refl

renewed-continued :
    (e : Surroundings) (credential : Text) (r : SessionRecord) (s : SessionStore) (till : Option ℕ)
    → 0 < e.config.renewal_threshold_ms
    → IsCoherent s
    → IsFound (e.hash credential) r s
    → Admits e (some credential) s r
    → ResolveOutcome e (some credential) s (
        resolve_renewed e credential
          (renew r.session.session_id r.session.session_version e.now till s))
renewed-continued e credential r s till positive v f a =
    let id = r.session.session_id in
    let u = renewed e.now till r in
    let t = store_record id u s in
    let later = renewed_kind-expiry till r.session.kind r.session.absolute_expires_at in
    let answer : SessionResolution = record {
      session = u.session;
      credential_to_set = some (credential_update credential u.session);
    } in
    rw (renew-found (e.hash credential) r s e.now till f) (
      continued r answer t a
        (record {
          same_id = refl;
          same_version = refl;
          same_user = renewed_kind-user till r.session.kind;
          seen = ground arith;
        })
        (store_record-IsCoherent id r u s v f.stands f.live refl refl f.live)
        (record {
          unexpired = ground (arith, a.lasts);
          credential = credential;
          holds = refl;
          stored = u;
          leads = renewed-leads (e.hash credential) r u s f;
          same = refl;
        })
        refl)

-- A credential that leads to an ended session, or to none, admits nobody.
found-unknown :
    (e : Surroundings) (credential : Text) (o : Option SessionRecord) (s : SessionStore)
    → find_by_credential_hash (e.hash credential) s ≡ o
    → ((r : SessionRecord) → o ≡ some r → session_expiry r.session ≤ e.now)
    → (r : SessionRecord) → ¬ Admits e (some credential) s r
found-unknown e credential o s found over r a =
    let one : credential ≡ a.credential = ground (arith, a.is_presented) in
    let its : find_by_credential_hash (e.hash credential) s ≡ some r =
      subst (λ c. find_by_credential_hash (e.hash c) s ≡ some r) (sym one) a.leads in
    let past = over r (ground (arith, its)) in let ahead = a.lasts in omega arith

resolve_record_outcome :
    (e : Surroundings) (credential : Text) (o : Option SessionRecord) (s : SessionStore)
    → is_valid_config e.config ≡ true
    → is_secret credential ≡ true
    → IsCoherent s
    → find_by_credential_hash (e.hash credential) s ≡ o
    → ResolveOutcome e (some credential) s (resolve_record e credential o s)
unfolding resolve_record
resolve_record_outcome e credential none s valid proper v found =
    create_guest_resolves e (some credential) s (ground arith)
      (found-unknown e credential none s found (λ r some_r. absurd (ground arith))) s v
resolve_record_outcome e credential (some r) s valid proper v found =
    let id = r.session.session_id in
    let version = r.session.session_version in
    let f = find-IsFound (e.hash credential) r s v found in
    let till = idle_limit e r.session in
    elim (Bool-cases (leb (session_expiry r.session) e.now)) [
      | inl ended ↦
          let t = (Rotation.revoke id version e.now s).1 in
          rw (f.live, ended)
            (create_guest_resolves e (some credential) s (ground arith)
              (found-unknown e credential (some r) s found (λ q same. ground arith)) t
              (revoked-IsCoherent id version e.now s v))
      | inr lasts ↦
          let a : Admits e (some credential) s r = record {
            credential = credential;
            is_presented = refl;
            proper = proper;
            leads = found;
            lasts = ground arith;
          } in
          elim (Bool-cases (leb (r.session.last_seen_at + e.config.renewal_threshold_ms) e.now)) [
            | inr recent ↦
                rw (f.live, lasts, recent)
                  (continued r (record { session = r.session; credential_to_set = none }) s a
                    (record {
                      same_id = refl;
                      same_version = refl;
                      same_user = refl;
                      seen = ground arith;
                    })
                    v
                    (record {
                      unexpired = a.lasts;
                      credential = credential;
                      holds = refl;
                      stored = r;
                      leads = found;
                      same = refl;
                    })
                    refl)
            | inl due ↦
                rw (f.live, lasts, due)
                  (renewed-continued e credential r s till (ground arith) v f a)
          ]
    ]

-- Under a valid configuration and on a coherent store, a credential that leads to a session which
-- has not ended is answered by that session, of the same user and version and seen within the
-- renewal threshold. Any other, or none, is answered by a new guest, or fails because of the
-- generators: a credential of the wrong form, or no unused attempt among those permitted. The answer's session
-- has not expired, the credential that the client then holds leads to it, and the store stays coherent.
pub resolve_outcome :
    (e : Surroundings) (presented : Option Text) (s : SessionStore)
    → is_valid_config e.config ≡ true
    → IsCoherent s
    → ResolveOutcome e presented s (resolve e presented s)
unfolding resolve
resolve_outcome e none s valid v =
    create_guest_resolves e none s (ground arith) (λ r a. absurd (ground (arith, a.is_presented))) s
      v
resolve_outcome e (some credential) s valid v = elim (Bool-cases (is_secret credential)) [
  | inr malformed ↦ rw malformed (
      create_guest_resolves e (some credential) s (ground arith)
        (λ r a. absurd (ground (arith, a.is_presented, a.proper))) s v)
  | inl proper ↦ rw proper (
      resolve_record_outcome e credential (find_by_credential_hash (e.hash credential) s) s valid
        proper v refl)
]
