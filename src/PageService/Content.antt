-- ===== src/PageService/Content.antt =====
-- lib/page/service.ts: content handlers, the preparation of content, and the staging of its asset.
use iam_pager.Base.{
  Text, ℕ, zero, suc, Bool, List, [], ◌∷◌, Option, none, some, if◌then◌else◌, ◌==◌, not, ◌&&◌,
  member, length, codes, is_some,
}
use iam_pager.Content.{
  Date, ContentMeta, ContentAsset, inline, external, ExternalContentRef, is_external_provider_id,
  external_content_ref_violation, is_valid_content_asset_id,
}
use iam_pager.Namespace.{PageActor, guest_actor, user_actor}
use iam_pager.PageRepository.Requests.{AssetReply, asset_stored, asset_rejected}
use iam_pager.PageRepository.Reads.{create_content_asset}
use iam_pager.PageService.Model.{
  Setting, ContentTypeHandler, ContentResult, valid, invalid_because, DeliveryPayload, Body,
  characters, bytes, ExternalStorageProvider, ExternalStorageResult, ExternalStorageFailure, value,
  failure, raised, external_content_missing, connection_revoked, external_source_unreachable,
  ExternalContentPutInput, PageContentCommand, Failure, PreparedPageContent, inline_content,
  external_content,
}
use iam_pager.PageService.Call.{
  Call, fails, throws, ServiceFault, ◌>>=◌, ◌>>◌, pure, stop, unless, ask, given, draw_asset_id,
}

-- `#handlers.get`
unfoldable pub handler_named : Text → List ContentTypeHandler → Option ContentTypeHandler
handler_named content_type [] = none
handler_named content_type (h ∷ rest) =
    if h.content_type == content_type then some h else handler_named content_type rest

unfoldable pub require_handler : Setting → Text → Call ContentTypeHandler
require_handler g content_type =
    given (handler_named content_type g.handlers) (throws ServiceFault.no_handler)

abbrev pub encoded : Setting → Body → List ℕ
encoded g (characters text) = g.encode text
encoded g (bytes body) = body

unfoldable pub meta_from_payload : Setting → DeliveryPayload → ContentMeta
meta_from_payload g payload = record {
  media_type = payload.media_type;
  size_bytes = length (encoded g payload.body);
  download_filename = payload.download_filename;
  sha256 = none;
  codec_version = none;
}

abbrev pub failure_of : ExternalStorageFailure → Failure
failure_of external_content_missing = Failure.content_missing
failure_of connection_revoked = Failure.revoked_connection
failure_of (external_source_unreachable retry_after) = Failure.source_unreachable

unfoldable pub validated : ContentResult → Call Text
validated (valid input) = pure input
validated (invalid_because reason) = stop (fails (Failure.invalid_input reason))

-- The value of a provider's answer; an exception is caught.
unfoldable pub provided : {A : Type 0} → ExternalStorageResult A → Call A
provided (value a) = pure a
provided (failure f) = stop (fails (failure_of f))
provided raised = stop (fails Failure.source_unreachable)

unfoldable pub user_of : PageActor → Call Text
user_of guest_actor = stop (fails Failure.external_storage_requires_managed_page)
user_of (user_actor user_id via_api_key) = pure user_id

abbrev is_answer_of : ExternalStorageProvider → Text → ExternalContentRef → Bool
is_answer_of provider connection ref =
    not (is_some (external_content_ref_violation ref))
    && (ref.provider_id == provider.provider_id)
    && (ref.connection_id == connection)

abbrev put_method :
    ExternalStorageProvider
    → Option (ExternalContentPutInput → ExternalStorageResult ExternalContentRef)
put_method provider =
    if member (codes "write") provider.capabilities then provider.put_content else none

unfoldable pub upload :
    Setting → PageActor → ContentTypeHandler → DeliveryPayload → Text → Call PreparedPageContent
upload g actor handler payload provider_id = do
  user ← user_of actor
  unless (is_external_provider_id provider_id) (fails Failure.invalid_storage_provider)
  connection ←
      given (g.active_connection user provider_id) (fails Failure.storage_connection_not_found)
  provider ← given (g.provider_of provider_id) (fails Failure.storage_provider_unavailable)
  put ← given (put_method provider) (fails Failure.storage_provider_not_writable)
  ref ← provided (
      put (record {
        connection_id = connection;
        body = encoded g payload.body;
        media_type = payload.media_type;
        download_filename = payload.download_filename;
      }))
  unless (is_answer_of provider connection ref) (fails Failure.source_unreachable)
  pure (
      external_content handler.content_type ref (record (meta_from_payload g payload) {
        sha256 = some (g.sha256 (encoded g payload.body));
        codec_version = some handler.canonical_codec_version;
      }))

unfoldable pub prepare_content : Setting → PageContentCommand → PageActor → Call PreparedPageContent
prepare_content g command actor = do
  handler ←
      given (handler_named command.content_type g.handlers) (fails Failure.unknown_content_type)
  input ← validated (handler.validate_input command.input)
  elim command.storage [
    | none ↦ pure (
        inline_content handler.content_type (handler.derive input)
          (meta_from_payload g (handler.render (handler.derive input))))
    | some provider_id ↦ upload g actor handler (handler.render (handler.derive input)) provider_id
  ]

-- The asset of prepared content, under an identity and at a time
abbrev pub asset_of : PreparedPageContent → Text → Date → ContentAsset
asset_of (inline_content content_type data_text meta) id now = record {
  content_asset_id = id;
  content_type = content_type;
  source = inline;
  stored = some data_text;
  meta = meta;
  created_at = now;
}
asset_of (external_content content_type ref meta) id now = record {
  content_asset_id = id;
  content_type = content_type;
  source = external ref;
  stored = none;
  meta = meta;
  created_at = now;
}

-- The identity of a stored asset, or the next attempt
unfoldable pub staged : AssetReply → Call Text → Call Text
staged (asset_stored asset) again = pure asset.content_asset_id
staged (asset_rejected reason) again = again

unfoldable pub stage_attempts : ℕ → Setting → PreparedPageContent → Date → Call Text
stage_attempts zero g content now = stop (throws ServiceFault.asset_ids_exhausted)
stage_attempts (suc n) g content now = do
  id ← draw_asset_id g.asset_ids
  unless (is_valid_content_asset_id id) (throws ServiceFault.bad_asset_id)
  reply ← ask (create_content_asset (asset_of content id now))
  staged reply (stage_attempts n g content now)

unfoldable pub stage_prepared_content_asset : Setting → PreparedPageContent → Date → Call Text
stage_prepared_content_asset g = stage_attempts g.max_page_id_attempts g
