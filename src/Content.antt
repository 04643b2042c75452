-- ===== src/Content.antt =====
-- lib/content/asset.ts, with the references of lib/external-storage/model.ts.
use iam_pager.Base.{
  Text, ℕ, Bool, ◌&&◌, ◌||◌, leb, ltb, eqb, length, Option, none, some, if◌then◌else◌, true, false,
  not, any, is_some,
}
use iam_pager.Base.Patterns.{
  is_lower, is_upper, is_digit, is_id_char, is_control, repeats, headed, non_empty,
}

-- A `Date`: milliseconds since the epoch, or the invalid date.
pub data Date : Type 0 where
  instant : ℕ → Date
  invalid : Date

abbrev pub is_valid_date : Date → Bool
is_valid_date (instant _) = true
is_valid_date invalid = false

pub record ExternalContentRef : Type 0 where
  pub provider_id : Text
  pub connection_id : Text
  pub external_ref : Text
  pub version_hint : Option Text

pub record ContentMeta : Type 0 where
  pub media_type : Text
  pub size_bytes : ℕ
  pub download_filename : Option Text
  pub sha256 : Option Text
  pub codec_version : Option Text

pub data ContentAssetSource : Type 0 where
  inline : ContentAssetSource
  external : ExternalContentRef → ContentAssetSource

-- `stored`: the canonical data, in whatever text form the handler keeps it, where the asset has it.
pub record ContentAsset : Type 0 where
  pub content_asset_id : Text
  pub content_type : Text
  pub source : ContentAssetSource
  pub stored : Option Text
  pub meta : ContentMeta
  pub created_at : Date

pub data AssetViolation : Type 0 where
  bad_asset_id empty_content_type inline_without_data bad_provider_id bad_connection_id
        bad_external_ref bad_version_hint external_with_data empty_media_type bad_size bad_sha256
        bad_codec_version missing_sha256 missing_codec_version bad_created_at :
      AssetViolation

abbrev pub is_external : ContentAssetSource → Bool
is_external inline = false
is_external (external ref) = true

unfoldable pub is_external_provider_id : Text → Bool
unfolding headed
is_external_provider_id value =
    headed is_lower (λ c. is_lower c || is_digit c || eqb c b'-') 63 value

is_external_connection_id : Text → Bool
unfolding repeats
is_external_connection_id value = repeats is_id_char 1 64 value

is_bounded_opaque_text : Text → ℕ → Bool
is_bounded_opaque_text value max_length =
    ltb 0 (length value) && leb (length value) max_length && not (any is_control value)

-- An absent value passes.
abbrev optional : (Text → Bool) → Option Text → Bool
optional p none = true
optional p (some value) = p value

unfoldable pub external_content_ref_violation : ExternalContentRef → Option AssetViolation
unfolding is_external_provider_id is_external_connection_id is_bounded_opaque_text
external_content_ref_violation ref =
    if not (is_external_provider_id ref.provider_id)
    then some bad_provider_id
    else if not (is_external_connection_id ref.connection_id)
    then some bad_connection_id
    else if not (is_bounded_opaque_text ref.external_ref 2048)
    then some bad_external_ref
    else if not (optional (λ v. is_bounded_opaque_text v 512) ref.version_hint)
    then some bad_version_hint
    else none

unfoldable pub is_valid_content_asset_id : Text → Bool
unfolding repeats
is_valid_content_asset_id value = repeats is_id_char 1 64 value

is_valid_content_codec_version : Text → Bool
unfolding headed
is_valid_content_codec_version value =
    headed (λ c. is_upper c || is_lower c || is_digit c) (λ c. is_id_char c || eqb c b'.') 63 value

is_valid_content_sha256 : Text → Bool
unfolding repeats
is_valid_content_sha256 value = repeats (λ c. is_digit c || (leb b'a' c && leb c b'f')) 64 64 value

-- `is_valid_…(value)` of a value that may be absent
abbrev required : (Text → Bool) → Option Text → Bool
required p none = false
required p (some value) = p value

source_violation : ContentAssetSource → Option Text → Option AssetViolation
source_violation inline stored = if not (is_some stored) then some inline_without_data else none
source_violation (external ref) stored =
    if is_some (external_content_ref_violation ref)
    then external_content_ref_violation ref
    else if is_some stored
    then some external_with_data
    else none

-- `Number.isSafeInteger(size)`, of a size that is a natural number
abbrev is_safe_size : ℕ → Bool
is_safe_size n = leb n 9007199254740991

unfoldable pub content_asset_violation : ContentAsset → Option AssetViolation
unfolding is_valid_content_asset_id source_violation external_content_ref_violation
    is_valid_content_codec_version is_valid_content_sha256
content_asset_violation asset =
    if not (is_valid_content_asset_id asset.content_asset_id)
    then some bad_asset_id
    else if not (non_empty asset.content_type)
    then some empty_content_type
    else if is_some (source_violation asset.source asset.stored)
    then source_violation asset.source asset.stored
    else if not (non_empty asset.meta.media_type)
    then some empty_media_type
    else if not (is_safe_size asset.meta.size_bytes)
    then some bad_size
    else if not (optional is_valid_content_sha256 asset.meta.sha256)
    then some bad_sha256
    else if not (optional is_valid_content_codec_version asset.meta.codec_version)
    then some bad_codec_version
    else if is_external asset.source && not (required is_valid_content_sha256 asset.meta.sha256)
    then some missing_sha256
    else if is_external asset.source
        && not (required is_valid_content_codec_version asset.meta.codec_version)
    then some missing_codec_version
    else if not (is_valid_date asset.created_at)
    then some bad_created_at
    else none
