-- ===== src/Locator/Tests.antt =====
-- Locator keys at concrete locators.
use iam_pager.Base.{codes, some, ◌≡◌, refl, arith, to_lower}
use iam_pager.Locator.{Locator, locator_key}
use iam_pager.Locator.Identity.{SameLocator, locator_key_iff}

abbrev docs : Locator
docs = record { namespace = codes "Docs"; page_name = some (codes "a/B") }

abbrev docs_again : Locator
docs_again = record { namespace = codes "dOCS"; page_name = some (codes "A/b") }

same_key : locator_key docs ≡ codes "docs/a/b"
unfolding locator_key to_lower
same_key = refl

locator_key_iff_example :
    (locator_key docs ≡ locator_key docs_again → SameLocator docs docs_again)
    × (SameLocator docs docs_again → locator_key docs ≡ locator_key docs_again)
locator_key_iff_example = locator_key_iff docs docs_again (omega arith) (omega arith)
