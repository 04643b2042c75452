-- ===== src/Session/Endings.antt =====
-- lib/session/memory-repository.ts: a credential that is rotated out or revoked stays dead.
use iam_pager.Base.{Text, List, [], ◌∷◌, none, some, ◌≡◌, ◌≢◌, refl, ◌+◌, arith, subst, All}
use iam_pager.Base.Map.{get, delete, get-put, get-delete}
use iam_pager.Session.{SessionRecord}
use iam_pager.Session.Store.{SessionStore, current_at, find_by_credential_hash}
use iam_pager.Session.Rotation.{end_session, ended, upgraded}
use iam_pager.Session.Coherence.{IsCoherent}
use iam_pager.Session.Transition.{
  Command, step, introduced, StartsLive, Transition, idle, began, rewrote, turned, closed,
  step-Transition,
}
use iam_pager.Session.Safety.{run, step-IsCoherent}
use iam_pager.Session.Versions.{HasReached, run-HasReached, HasReached-stale}

-- The credential leads to no session.
unfoldable pub IsDead : Text → SessionStore → Type 0
IsDead h s = get s.credential_index h ≡ none

IsDead-find : (h : Text) (s : SessionStore) → IsDead h s → find_by_credential_hash h s ≡ none
unfolding IsDead find_by_credential_hash
IsDead-find h s dead = rw dead refl

Transition-IsDead :
    (c : Command) (s t : SessionStore) (h : Text)
    → introduced c ≢ some h
    → Transition c s t
    → IsDead h s
    → IsDead h t
unfolding IsDead end_session
Transition-IsDead c s t h other (idle e) dead = ground arith
Transition-IsDead c s t h other (began r is new free e) dead =
    let apart = subst (λ d. introduced d ≢ some h) is other in
    rw e
      (ground (arith, get-put s.credential_index r.credential_hash h r.session.session_id, apart))
Transition-IsDead c s t h other (rewrote id m r u k same_id same_version same_hash unrev e) dead =
    rw e dead
Transition-IsDead c s t h other (turned i r is k free e) dead =
    let apart = subst (λ d. introduced d ≢ some h) is other in
    let left = delete s.credential_index r.credential_hash in
    rw e (
      ground (
        arith,
        get-put left i.credential_hash h r.session.session_id,
        get-delete s.credential_index r.credential_hash h,
        apart,
      ))
Transition-IsDead c s t h other (closed id m at r k e) dead =
    rw e (ground (arith, get-delete s.credential_index r.credential_hash h))

run-IsDead :
    (cs : List Command) (s : SessionStore) (h : Text)
    → All (λ c. introduced c ≢ some h) cs
    → IsDead h s
    → IsDead h (run cs s)
unfolding run
run-IsDead [] s h others dead = dead
run-IsDead (c ∷ cs) s h others dead =
    run-IsDead cs (step c s) h others.1
      (Transition-IsDead c s (step c s) h others.0 (step-Transition c s) dead)

-- An operation that takes a session past its version takes the credential away.
Transition-kills :
    (c : Command) (s t : SessionStore) (id : Text) (r : SessionRecord)
    → IsCoherent s
    → introduced c ≢ some r.credential_hash
    → get s.records id ≡ some r
    → r.revoked_at ≡ none
    → HasReached id (r.session.session_version + 1) t
    → Transition c s t
    → IsDead r.credential_hash t
unfolding IsDead HasReached end_session
Transition-kills c s t id r v other stands live (q, there, past) (idle e) = absurd (ground arith)
Transition-kills c s t id r v other stands live (q, there, past) (began p is new free e) =
    let after = rw e at there in
    absurd (ground (arith, get-put s.records p.session.session_id id p))
Transition-kills c s t id r v other stands live (q, there, past)
      (rewrote j m p u k same_id same_version same_hash unrev e) =
    let after = rw e at there in absurd (ground (arith, get-put s.records j id u, k.stands))
Transition-kills c s t id r v other stands live (q, there, past) (turned i p is k free e) =
    let apart = subst (λ d. introduced d ≢ some r.credential_hash) is other in
    let its = v.id_kept i.session_id p k.stands in
    let after = rw e at there in
    let h = r.credential_hash in
    let left = delete s.credential_index p.credential_hash in
    rw e (
      ground (
        arith,
        get-put s.records p.session.session_id id (upgraded i p),
        k.stands,
        get-put left i.credential_hash h p.session.session_id,
        get-delete s.credential_index p.credential_hash h,
        apart,
      ))
Transition-kills c s t id r v other stands live (q, there, past) (closed j m at p k e) =
    let after = rw e at there in
    rw e (
      ground (
        arith,
        get-put s.records j id (ended at p),
        k.stands,
        get-delete s.credential_index p.credential_hash r.credential_hash,
      ))

-- On a coherent store, among operations that create live sessions only: when an operation takes a
-- live session past its version, then the credential that the session had leads to nothing, and its
-- version is stale, through any further operations, as long as neither it nor any of those brings
-- that credential in again.
pub passed_for_good :
    (c : Command) (cs : List Command) (s : SessionStore) (id : Text) (r : SessionRecord)
    → IsCoherent s
    → get s.records id ≡ some r
    → r.revoked_at ≡ none
    → HasReached id (r.session.session_version + 1) (step c s)
    → All StartsLive (c ∷ cs)
    → All (λ d. introduced d ≢ some r.credential_hash) (c ∷ cs)
    → (find_by_credential_hash r.credential_hash (run (c ∷ cs) s) ≡ none)
      × (current_at id r.session.session_version (run (c ∷ cs) s) ≡ none)
unfolding run
passed_for_good c cs s id r v stands live past fresh others =
    let killed =
      Transition-kills c s (step c s) id r v others.0 stands live past (step-Transition c s) in
    let dead = run-IsDead cs (step c s) r.credential_hash others.1 killed in
    let n = r.session.session_version in
    let reached =
      run-HasReached cs (step c s) id (n + 1) fresh.1 (step-IsCoherent c s fresh.0 v) past in
    (IsDead-find r.credential_hash _ dead, HasReached-stale id n (n + 1) _ (omega arith) reached)
