-- ===== src/Session/Tests.antt =====
-- Runs of the session store and service, and the theorems at concrete inputs.
use iam_pager.Base.{◌≤◌, Text, codes, [], ◌∷◌, none, some, ◌≡◌, refl, ◌==◌, arith, length, text_dec}
use iam_pager.Base.Map.{get, put, delete}
use iam_pager.Base.Patterns.{repeats}
use iam_pager.Session.{SessionRecord, guest}
use iam_pager.Session.Csrf.{csrf_tokens_match, csrf_tokens_match_lem, difference_from}
use iam_pager.Session.Store.{
  SessionStore, empty_store, create, renew, current_at, find_by_credential_hash, ok, refused,
  not_found,
}
use iam_pager.Session.Attempts.{
  AttemptSave, save_authentication_attempt, consume_authentication_attempt, save_from, consume_from,
  consume_matched, extract,
}
use iam_pager.Session.Rotation.{
  SessionUpgrade, Logout, upgrade, upgrade_from, upgraded, logout, logout_from, revoke, revoke_from,
  end_session, ended,
}
use iam_pager.Session.Coherence.{IsCoherent, empty-IsCoherent}
use iam_pager.Session.Transition.{
  create_session, upgrade_session, logout_session, revoke_session, step,
}
use iam_pager.Session.Safety.{step-IsCoherent, run, history-live}
use iam_pager.Session.Versions.{HasReached}
use iam_pager.Session.Endings.{passed_for_good}
use iam_pager.Session.Outcomes.{UpgradeOutcome, upgrade_outcome, LogoutOutcome, logout_outcome}
use iam_pager.Session.OneUse.{presented, save-consume, save-length}
use iam_pager.Session.Service.{
  Surroundings, default_session_config, is_secret, create_guest, resolve,
}
use iam_pager.Session.SignIn
use iam_pager.Session.Guests.{IsAnswered, create_guest-IsAnswered}
use iam_pager.Session.Resolving.{ResolveOutcome, resolve_outcome}
use iam_pager.Session.Upgrading.{SignInOutcome, upgrade-SignInOutcome}

program : Unit {0}
unfolding run step create renew current_at find_by_credential_hash save_authentication_attempt
    consume_authentication_attempt save_from consume_from consume_matched extract upgrade
    upgrade_from logout logout_from revoke revoke_from end_session HasReached get put delete
    text_dec is_secret repeats csrf_tokens_match difference_from
program = tt

abbrev secret : Text
secret = codes "abcdefghijklmnopqrstuvwxyz-ABCDEFGHIJKLMNOP"

abbrev visitor : SessionRecord
visitor = record {
  session = record {
    kind = guest;
    session_id = codes "s1";
    session_version = 1;
    created_at = 10;
    last_seen_at = 10;
    absolute_expires_at = 1000;
  };
  credential_hash = codes "h1";
  revoked_at = none;
  authentication_attempts = [];
}

abbrev opened : SessionStore
opened = step (create_session visitor) empty_store

opened-IsCoherent : IsCoherent opened
opened-IsCoherent = step-IsCoherent (create_session visitor) empty_store refl empty-IsCoherent

abbrev sign_in : SessionUpgrade
sign_in = record {
  session_id = codes "s1";
  expected_version = 1;
  credential_hash = codes "h2";
  csrf_token = codes "token";
  user_id = codes "ada";
  authenticated_at = 20;
  absolute_expires_at = 5000;
  idle_expires_at = 3000;
}

abbrev sign_out : Logout
sign_out = record {
  session_id = codes "s1";
  expected_version = 2;
  csrf_token = codes "token";
  logged_out_at = 30;
}

abbrev user_record : SessionRecord
user_record = upgraded sign_in visitor

abbrev signed_in : SessionStore
signed_in = step (upgrade_session sign_in) opened

signed_in-IsCoherent : IsCoherent signed_in
signed_in-IsCoherent = step-IsCoherent (upgrade_session sign_in) opened tt opened-IsCoherent

csrf_tokens_match_lem_example :
    csrf_tokens_match (codes "token") (codes "tokem") ≡ (codes "token" == codes "tokem")
csrf_tokens_match_lem_example = csrf_tokens_match_lem (codes "token") (codes "tokem")

history-live_example : (user_record.credential_hash ≡ codes "h2") × (user_record.revoked_at ≡ none)
unfolding program
history-live_example =
    history-live (create_session visitor ∷ upgrade_session sign_in ∷ []) (codes "h2") user_record
      (refl, (tt, tt)) refl

passed_for_good_example :
    (find_by_credential_hash
        (codes "h2")
        (run (logout_session sign_out ∷ revoke_session (codes "s1") 3 40 ∷ []) signed_in)
      ≡ none)
    × (current_at
          (codes "s1")
          2
          (run (logout_session sign_out ∷ revoke_session (codes "s1") 3 40 ∷ []) signed_in)
        ≡ none)
unfolding program
passed_for_good_example =
    passed_for_good (logout_session sign_out) (revoke_session (codes "s1") 3 40 ∷ []) signed_in
      (codes "s1") user_record signed_in-IsCoherent refl refl
      (ended 30 user_record, refl, omega arith) (tt, (tt, tt)) ((λ e. cc), ((λ e. cc), tt))

upgrade_outcome_example : UpgradeOutcome sign_in opened (upgrade sign_in opened)
upgrade_outcome_example = upgrade_outcome sign_in opened opened-IsCoherent

logout_outcome_example : LogoutOutcome sign_out signed_in (logout sign_out signed_in)
logout_outcome_example = logout_outcome sign_out signed_in signed_in-IsCoherent

abbrev asked : AttemptSave
asked = record {
  session_id = codes "s1";
  expected_version = 1;
  attempt = record {
    strategy_id = codes "oauth";
    state_hash = codes "st";
    callback_url = codes "/callback";
    return_to = codes "/";
    attempt_context = none;
    created_at = 15;
    expires_at = 100;
  };
  max_pending_attempts = 5;
}

abbrev pending : SessionStore
pending = (save_authentication_attempt asked opened).1

save-consume_example :
    let once = consume_authentication_attempt (presented asked 50) pending in
    (once.0 ≡ ok asked.attempt)
    × ((consume_authentication_attempt (presented asked 60) once.1).0 ≡ refused not_found)
unfolding program
save-consume_example = save-consume asked opened pending 50 60 refl (omega arith)

abbrev holder : SessionRecord
holder = record {
  session = visitor.session;
  credential_hash = visitor.credential_hash;
  revoked_at = none;
  authentication_attempts = asked.attempt ∷ [];
}

save-length_example : length holder.authentication_attempts ≤ asked.max_pending_attempts
unfolding program
save-length_example = save-length asked opened pending holder refl (omega arith) refl

abbrev around : Surroundings
around = record {
  config = default_session_config;
  now = 50;
  session_ids = λ k. codes "s2";
  credentials = λ k. secret;
  csrf_tokens = λ k. secret;
  hash = λ t. t;
}

create_guest-IsAnswered_example : IsAnswered (create_guest around 50 opened)
unfolding program
create_guest-IsAnswered_example =
    create_guest-IsAnswered around 50 0 opened (λ j. refl) (omega arith)
      (record { new_id = refl; new_credential = refl })

resolve_outcome_example :
    ResolveOutcome around (some secret) opened (resolve around (some secret) opened)
resolve_outcome_example = resolve_outcome around (some secret) opened refl opened-IsCoherent

upgrade-SignInOutcome_example :
    SignInOutcome around visitor.session
      (codes "ada")
      opened
      (SignIn.upgrade around visitor.session (codes "ada") opened)
upgrade-SignInOutcome_example =
    upgrade-SignInOutcome around visitor.session (codes "ada") opened opened-IsCoherent
