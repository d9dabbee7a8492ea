-- ===== src/Owncast/Liveness/Laws.antt =====
-- liveness.ts: what it takes to be live.
use livelier.Base.{true, false, ◌≡◌, refl, Option, none, some, if-cases, arith, ◌⊎◌, inl, inr}
use livelier.Owncast.Liveness.{
  Text, OwncastLiveness, live, error, has_endlist, has_offline_slate, has_media_sequence,
  has_stream_inf, classify_media_playlist, first_variant_uri, check_url, check_variant, check_body,
  check_owncast_hls_liveness,
}

-- A media playlist that is being written, and is not the offline slate.
abbrev pub IsLivePlaylist : Text → Type 0
IsLivePlaylist body =
    (has_media_sequence body ≡ true) × (has_offline_slate body ≡ false) × (has_endlist body ≡ false)

classify-live : (body : Text) → classify_media_playlist body ≡ live → IsLivePlaylist body
unfolding classify_media_playlist
classify-live body h = (ground (arith, h), ground (arith, h), ground (arith, h))

module _ (fetch : Text → Option Text) (resolve : Text → Text → Option Text) where
  -- A live media playlist stands at the address.
  abbrev pub ServesLive : Text → Type 0
  ServesLive url = (body : Text) × (fetch url ≡ some body) × IsLivePlaylist body

  check_url-live :
      (o : Option Text)
      → check_url fetch resolve o ≡ live
      → (url : Text) × (o ≡ some url) × ServesLive url
  unfolding check_url
  check_url-live none h = absurd (ground (arith, h))
  check_url-live (some url) h = (url, refl, fetched (fetch url) refl h)
    where
      fetched :
          (o : Option Text)
          → fetch url ≡ o
          → (elim o [ none ↦ error | some body ↦ classify_media_playlist body ]) ≡ live
          → ServesLive url
      fetched none e k = absurd (ground (arith, k))
      fetched (some body) e k = (body, e, classify-live body k)

  -- A master playlist without an end stands at the address, and its first variant is live.
  abbrev pub ServesMaster : Text → Type 0
  ServesMaster hls_url =
      (master variant url : Text) × (fetch hls_url ≡ some master)
      × (has_endlist master ≡ false)
      × (first_variant_uri master ≡ some variant)
      × (resolve variant hls_url ≡ some url)
      × ServesLive url

  check_variant-live :
      (hls_url : Text) (o : Option Text)
      → check_variant fetch resolve hls_url o ≡ live
      → (variant url : Text) × (o ≡ some variant)
        × (resolve variant hls_url ≡ some url)
        × ServesLive url
  unfolding check_variant
  check_variant-live hls_url none h = absurd (ground (arith, h))
  check_variant-live hls_url (some variant) h =
      let (url, e, serves) = check_url-live (resolve variant hls_url) h in
      (variant, url, refl, e, serves)

  check_body-live :
      (hls_url : Text) (o : Option Text)
      → fetch hls_url ≡ o
      → check_body fetch resolve hls_url o ≡ live
      → ServesLive hls_url ⊎ ServesMaster hls_url
  unfolding check_body
  check_body-live hls_url none e h = absurd (ground (arith, h))
  check_body-live hls_url (some body) e h =
      if-cases Claim (has_endlist body) (λ _ k. absurd (ground (arith, k)))
        (λ open_end.
          if-cases Claim (has_media_sequence body) (λ _ k. inl (body, e, classify-live body k))
            (λ _.
              if-cases Claim (has_stream_inf body)
                (λ _ k.
                  let (variant, url, first, resolved, serves) =
                    check_variant-live hls_url (first_variant_uri body) k in
                  inr (body, variant, url, e, open_end, first, resolved, serves))
                (λ _ k. absurd (ground (arith, k)))))
        h
    where
      Claim : OwncastLiveness → Type 0
      Claim x = x ≡ live → ServesLive hls_url ⊎ ServesMaster hls_url

  -- An instance is taken for live only if its address serves a live media playlist itself, or a master
  -- playlist without an end whose first variant does.
  pub check_owncast_hls_liveness-live :
      (hls_url : Text)
      → check_owncast_hls_liveness fetch resolve hls_url ≡ live
      → ServesLive hls_url ⊎ ServesMaster hls_url
  unfolding check_owncast_hls_liveness
  check_owncast_hls_liveness-live hls_url h = check_body-live hls_url (fetch hls_url) refl h
