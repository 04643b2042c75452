-- ===== src/Namespace/Tests.antt =====
-- Reservations at concrete requests.
use iam_pager.Base.{codes, [], ◌∷◌, ◌≡◌, false, Text, List}
use iam_pager.Locator.{Locator, LocatorResolution, resolved}
use iam_pager.Content.{Date, instant}
use iam_pager.Namespace.{ReserveRequest, user_actor, resolve_authority}
use iam_pager.Namespace.FirstClaim.{run, first_claimant, promised, authority-first_claimant}

abbrev accept : Locator → LocatorResolution
accept locator = resolved locator

abbrev wants : Text → Text → ReserveRequest
wants namespace user = record { namespace = namespace; owner_user_id = user }

abbrev requests : List (ReserveRequest × Date)
requests =
    (wants (codes "Docs") (codes "ada"), instant 1)
    ∷ (wants (codes "dOCS") (codes "bob"), instant 2)
    ∷ []

authority-first_claimant_example :
    resolve_authority (user_actor (codes "bob") false) (codes "docs") (run accept requests [])
    ≡ promised (user_actor (codes "bob") false) (first_claimant accept (codes "docs") requests)
authority-first_claimant_example =
    authority-first_claimant accept requests (user_actor (codes "bob") false) (codes "docs")
