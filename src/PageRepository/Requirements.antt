-- ===== src/PageRepository/Requirements.antt =====
-- lib/page/memory-aggregate-repository.ts: a sequence of requirements, and what is known after it.
use iam_pager.Base.{Bool, Option, none, some, true, false, ◌≡◌, refl, inl, ◌⊎◌}
use iam_pager.Base.Exec.{thrown}
use iam_pager.PageRepository.State.{Repository, Requirement, refused, Action, require, passes, ◌>>◌}

-- The action is thrown back by a requirement, and changes nothing.
abbrev pub Refuses : {A : Type 0} → Action A → Repository → Type 0
Refuses m s = (what : Requirement) × (m s ≡ (thrown (refused what), s))

pub require_then :
    {A : Type 0} (b : Bool) (what : Requirement) (rest : Action A) (s : Repository) (Q : Type 0)
    → (b ≡ true → Refuses rest s ⊎ Q)
    → Refuses (require b what >> rest) s ⊎ Q
require_then true what rest s Q h = h refl
require_then false what rest s Q h = inl (what, refl)

pub passes-none : {V : Type 0} (o : Option V) → passes o ≡ true → o ≡ none
passes-none none h = refl
passes-none (some v) h = cc
