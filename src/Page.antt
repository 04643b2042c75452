-- ===== src/Page.antt =====
-- lib/page/model.ts: identities, access, stewardship, tags and revisions of a page.
use iam_pager.Base.{
  all, Text, ℕ, Bool, ◌&&◌, ◌||◌, leb, ltb, eqb, length, List, [], ◌∷◌, ◌++◌, Option, none, some,
  text_lt, member, if◌then◌else◌, true, false, to_lower, ◌==◌, not,
}
use iam_pager.Base.Patterns.{is_lower, is_digit, is_id_char, repeats, non_empty}
use iam_pager.Base.Sort.{sort}

pub data PageAccess : Type 0 where
  everyone owner_only : PageAccess

pub data PageStewardship : Type 0 where
  trial : PageStewardship
  managed : Text → PageStewardship

abbrev pub is_trial : PageStewardship → Bool
is_trial trial = true
is_trial (managed owner_user_id) = false

abbrev pub max_page_tags : ℕ
max_page_tags = 10

abbrev pub max_page_tag_length : ℕ
max_page_tag_length = 32

-- The white space and line terminators that `trim` takes off
abbrev pub is_white : ℕ → Bool
is_white c =
    (leb 9 c && leb c 13)
    || eqb c 32
    || eqb c 0xa0
    || eqb c 0x1680
    || (leb 0x2000 c && leb c 0x200a)
    || eqb c 0x2028
    || eqb c 0x2029
    || eqb c 0x202f
    || eqb c 0x205f
    || eqb c 0x3000
    || eqb c 0xfeff

trim_start : Text → Text
trim_start [] = []
trim_start (c ∷ t) = if is_white c then trim_start t else c ∷ t

trim_end : Text → Text
trim_end [] = []
trim_end (c ∷ t) =
    let rest = trim_end t in if is_white c && not (non_empty rest) then [] else c ∷ rest

unfoldable pub trim : Text → Text
unfolding trim_start trim_end
trim t = trim_end (trim_start t)

abbrev pub is_alnum : ℕ → Bool
is_alnum c = is_lower c || is_digit c

abbrev pub is_tag_char : ℕ → Bool
is_tag_char c = is_lower c || is_digit c || eqb c b'_' || eqb c b'-'

abbrev ends_in_alnum : Text → Bool
ends_in_alnum [] = false
ends_in_alnum (c ∷ []) = is_alnum c
ends_in_alnum (c ∷ d ∷ t) = ends_in_alnum (d ∷ t)

-- `/^[a-z0-9](?:[a-z0-9_-]*[a-z0-9])?$/`
page_tag_pattern : Text → Bool
page_tag_pattern [] = false
page_tag_pattern (c ∷ t) = is_alnum c && all is_tag_char t && ends_in_alnum (c ∷ t)

unfoldable pub normalize_page_tag : Text → Option Text
unfolding page_tag_pattern
normalize_page_tag value =
    let normalized = to_lower (trim value) in
    if not (non_empty normalized)
      || ltb max_page_tag_length (length normalized)
      || not (page_tag_pattern normalized)
    then none
    else some normalized

-- `normalized.add(tag)` on a `Set`
add_tag : Text → List Text → List Text
add_tag tag seen = if member tag seen then seen else seen ++ tag ∷ []

collect_tags : List Text → List Text → Option (List Text)
collect_tags seen [] = some seen
collect_tags seen (candidate ∷ rest) = elim (normalize_page_tag candidate) [
  | none ↦ none
  | some tag ↦ collect_tags (add_tag tag seen) rest
]

sorted_tags : Option (List Text) → Option (List Text)
sorted_tags none = none
sorted_tags (some tags) = some (sort text_lt tags)

unfoldable pub normalize_page_tags : List Text → Option (List Text)
unfolding add_tag collect_tags sorted_tags
normalize_page_tags value =
    if ltb max_page_tags (length value) then none else sorted_tags (collect_tags [] value)

abbrev is_own_normal_form : Text → Bool
is_own_normal_form candidate = elim (normalize_page_tag candidate) [
  | none ↦ false
  | some tag ↦ tag == candidate
]

-- `previous !== null && candidate <= previous`
abbrev not_above : Option Text → Text → Bool
not_above none candidate = false
not_above (some previous) candidate = not (text_lt previous candidate)

tags_from : Option Text → List Text → Bool
tags_from previous [] = true
tags_from previous (candidate ∷ rest) =
    let later = tags_from (some candidate) rest in
    if not (is_own_normal_form candidate) || not_above previous candidate then false else later

unfoldable pub is_valid_page_tags : List Text → Bool
unfolding tags_from normalize_page_tag
is_valid_page_tags value = if ltb max_page_tags (length value) then false else tags_from none value

unfoldable pub is_valid_page_id : Text → Bool
unfolding repeats
is_valid_page_id value = repeats is_id_char 1 64 value

-- `Number.MAX_SAFE_INTEGER`
abbrev pub max_safe_integer : ℕ
max_safe_integer = 9007199254740991

abbrev pub is_valid_page_revision : ℕ → Bool
is_valid_page_revision value = leb value max_safe_integer && leb 1 value
