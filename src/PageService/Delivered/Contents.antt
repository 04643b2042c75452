-- ===== src/PageService/Delivered/Contents.antt =====
-- lib/page/service.ts: what a delivery is made of.
use iam_pager.Base.{
  Text, Option, none, some, true, ◌≡◌, refl, arith, inl, inr, ◌⊎◌, Bool-cases, ◌≢◌, [],
}
use iam_pager.Base.Exec.{Outcome, returned, thrown}
use iam_pager.Content.{ContentAsset, ContentAssetSource, inline, external, ExternalContentRef}
use iam_pager.PageService.Content.{handler_named}
use iam_pager.PageService.Model.{
  Setting, ContentTypeHandler, DeliveryPayload, ExternalStorageProvider, ExternalStorageResult,
  value, failure, raised, external_content_missing, connection_revoked, external_source_unreachable,
  ExternalContentPayload, bytes,
}
use iam_pager.Aggregate.{ExternalContentMissingCause}
use iam_pager.PageService.Call.{World, Stop, Call, ◌>>=◌, ◌>>◌, pure, resume}
use iam_pager.PageService.Relinking.{is_same_content}
use iam_pager.PageService.Delivery.{
  ResolvedDeliveryRecord, deliver_content, deliver_external, deliver_fetched, rendered,
  record_external_missing, external_unavailable, payload_of,
}

-- From a call that answers, the first part has answered and the second goes on from there.
pub bind-returned :
    {A B : Type 0} (m : Call A) (f : A → Call B) (w v : World) (b : B)
    → (m >>= f) w ≡ (returned b, v)
    → (a : A) × (u : World) × (m w ≡ (returned a, u)) × (f a u ≡ (returned b, v))
unfolding ◌>>=◌
bind-returned m f w v b e = by_result (m w) refl e
  where
    by_result :
        (o : Outcome Stop _ × World)
        → m w ≡ o
        → resume o f ≡ (returned b, v)
        → (a : _) × (u : World) × (m w ≡ (returned a, u)) × (f a u ≡ (returned b, v))
    by_result (returned a, u) k h = (a, u, k, h)
    by_result (thrown x, u) k h = cc

pub then-returned :
    {B : Type 0} (m : Call (Unit {0})) (k : Call B) (w v : World) (b : B)
    → (m >> k) w ≡ (returned b, v)
    → (u : World) × (m w ≡ (returned tt, u)) × (k u ≡ (returned b, v))
unfolding ◌>>◌
then-returned m k w v b e = let (a, u, f, h) = bind-returned m (λ _. k) w v b e in (u, f, h)

abbrev fetched_payload : ContentAsset → ExternalContentPayload → DeliveryPayload
fetched_payload a fetched = record {
  body = bytes fetched.body;
  media_type = a.meta.media_type;
  download_filename = a.meta.download_filename;
}

-- What is delivered of an asset: what a handler makes of its stored data, or the object that it
-- refers to, whose size and digest are those of the asset.
pub data IsContentOf (g : Setting) (a : ContentAsset) (p : DeliveryPayload) : Type 0 where
  stored_data :
      (h : ContentTypeHandler) (text : Text)
      → handler_named a.content_type g.handlers ≡ some h
      → a.source ≡ inline
      → (a.stored ≡ some text) ⊎ ((a.stored ≡ none) × (text ≡ []))
      → p ≡ h.render text
      → IsContentOf g a p
  fetched_object :
      (ref : ExternalContentRef) (provider : ExternalStorageProvider)
      (fetched : ExternalContentPayload)
      → a.source ≡ external ref
      → g.provider_of ref.provider_id ≡ some provider
      → provider.fetch_content ref a.meta.size_bytes ≡ value fetched
      → is_same_content g a.meta fetched ≡ true
      → p ≡ fetched_payload a fetched
      → IsContentOf g a p

module _ (g : Setting) (found : ResolvedDeliveryRecord) (p : DeliveryPayload) where
  missing_unavailable :
      (cause : ExternalContentMissingCause) (w v : World)
      → record_external_missing g found cause w ≢ (returned (payload_of p), v)
  unfolding record_external_missing external_unavailable pure
  missing_unavailable cause w v e =
      let (now, u, _, later) = bind-returned _ _ w v (payload_of p) e in
      let (t, _, last) = then-returned _ _ u v (payload_of p) later in cc

  rendered-IsContentOf :
      (h : ContentTypeHandler) (o : Option Text) (w v : World)
      → handler_named found.asset.content_type g.handlers ≡ some h
      → found.asset.source ≡ inline
      → found.asset.stored ≡ o
      → rendered h o w ≡ (returned (payload_of p), v)
      → IsContentOf g found.asset p
  unfolding pure
  rendered-IsContentOf h none w v named source is e =
      stored_data h [] named source (inr (is, refl)) (ground arith)
  rendered-IsContentOf h (some text) w v named source is e =
      stored_data h text named source (inl is) (ground arith)

  fetched-IsContentOf :
      (ref : ExternalContentRef) (provider : ExternalStorageProvider)
      (r : ExternalStorageResult ExternalContentPayload) (w v : World)
      → found.asset.source ≡ external ref
      → g.provider_of ref.provider_id ≡ some provider
      → provider.fetch_content ref found.asset.meta.size_bytes ≡ r
      → deliver_fetched g found r w ≡ (returned (payload_of p), v)
      → IsContentOf g found.asset p
  unfolding deliver_fetched external_unavailable pure
  fetched-IsContentOf ref provider raised w v source by got e = cc
  fetched-IsContentOf ref provider (failure (external_source_unreachable retry_after)) w v source by
        got e =
      cc
  fetched-IsContentOf ref provider (failure external_content_missing) w v source by got e =
      absurd (missing_unavailable _ w v e)
  fetched-IsContentOf ref provider (failure connection_revoked) w v source by got e =
      absurd (missing_unavailable _ w v e)
  fetched-IsContentOf ref provider (value fetched) w v source by got e =
      elim (Bool-cases (is_same_content g found.asset.meta fetched)) [
        | inr other ↦ absurd (missing_unavailable _ w v (rw other at e))
        | inl same ↦
            let (u, _, last) = then-returned _ _ w v (payload_of p) (rw same at e) in
            fetched_object ref provider fetched source by got same (ground arith)
      ]

  external-IsContentOf :
      (ref : ExternalContentRef) (provider : Option ExternalStorageProvider) (w v : World)
      → found.asset.source ≡ external ref
      → g.provider_of ref.provider_id ≡ provider
      → deliver_external g found ref provider w ≡ (returned (payload_of p), v)
      → IsContentOf g found.asset p
  unfolding deliver_external external_unavailable pure
  external-IsContentOf ref none w v source by e = cc
  external-IsContentOf ref (some provider) w v source by e =
      fetched-IsContentOf ref provider _ w v source by refl e

  pub content-IsContentOf :
      (h : ContentTypeHandler) (source : ContentAssetSource) (w v : World)
      → handler_named found.asset.content_type g.handlers ≡ some h
      → found.asset.source ≡ source
      → deliver_content g found h source w ≡ (returned (payload_of p), v)
      → IsContentOf g found.asset p
  unfolding deliver_content
  content-IsContentOf h inline w v named is e =
      rendered-IsContentOf h found.asset.stored w v named is refl e
  content-IsContentOf h (external ref) w v named is e =
      external-IsContentOf ref (g.provider_of ref.provider_id) w v is refl e
