-- ===== src/ApiAuth/Tests.antt =====
-- Authorization at concrete requests.
use iam_pager.Base.{
  Text, [], ◌∷◌, Option, none, some, codes, ◌≡◌, refl, text_dec, ◌==◌, if◌then◌else◌,
}
use iam_pager.Session.{Session, authenticated}
use iam_pager.Session.Csrf.{csrf_tokens_match, difference_from}
use iam_pager.ApiKey.{read, write, delete}
use iam_pager.ApiKey.Service.{ApiKeyPrincipal}
use iam_pager.ApiAuth.{
  browser_user, api_key, after_prefix, authenticate, ApiOperationRequest, allowed, denied,
  authorize, insufficient_permission, invalid_csrf,
}
use iam_pager.ApiAuth.Entitled.{Entitled, authorize-Entitled}

program : Unit {0}
unfolding after_prefix authenticate authorize text_dec csrf_tokens_match difference_from
program = tt

abbrev signed_in : Session
signed_in = record {
  kind = authenticated (record {
    user_id = codes "ada";
    authenticated_at = 5;
    idle_expires_at = 50;
    csrf_token = codes "c5";
  });
  session_id = codes "s1";
  session_version = 2;
  created_at = 5;
  last_seen_at = 5;
  absolute_expires_at = 90;
}

abbrev reader : ApiKeyPrincipal
reader = record { api_key_id = codes "k1"; user_id = codes "eve"; permissions = read ∷ write ∷ [] }

abbrev one_bearer : Text → Option ApiKeyPrincipal
one_bearer bearer = if bearer == codes "t0" then some reader else none

abbrev writing : ApiOperationRequest
writing = record { permission = write; presented_csrf_token = some (codes "c5") }

abbrev deleting : ApiOperationRequest
deleting = record { permission = delete; presented_csrf_token = none }

borne : authenticate one_bearer (some (codes "Bearer t0")) signed_in ≡ some (api_key reader)
unfolding program
borne = refl

lower_case : authenticate one_bearer (some (codes "bearer t0")) signed_in ≡ none
unfolding program
lower_case = refl

two_words : authenticate one_bearer (some (codes "Bearer t0 t1")) signed_in ≡ none
unfolding program
two_words = refl

on_session : authenticate one_bearer none signed_in ≡ some (browser_user (codes "ada") (codes "c5"))
unfolding program
on_session = refl

may_write : authorize (api_key reader) writing ≡ allowed (codes "eve")
unfolding program
may_write = refl

may_not_delete : authorize (api_key reader) deleting ≡ denied insufficient_permission
unfolding program
may_not_delete = refl

tokenless : authorize (browser_user (codes "ada") (codes "c5")) deleting ≡ denied invalid_csrf
unfolding program
tokenless = refl

authorize-Entitled_example :
    Entitled one_bearer (some (codes "Bearer t0")) signed_in writing (codes "eve")
authorize-Entitled_example =
    authorize-Entitled one_bearer (some (codes "Bearer t0")) signed_in writing (api_key reader)
      (codes "eve") borne may_write
