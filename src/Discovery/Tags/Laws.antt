-- ===== src/Discovery/Tags/Laws.antt =====
-- live-event-tags.ts: what a NIP-53 client reads back from the tags.
use livelier.Base.{
  ℕ, String, false, Option, none, some, List, [], ◌∷◌, ◌++◌, map, ◌≡◌, refl, ap, ◌∙◌, ◌==◌,
  if◌then◌else◌, or_else, arith,
}
use mathlib.Core.List.{append-nil}
use livelier.Base.Text.{decimal}
use livelier.Discovery.Tags.{
  Tag, LiveEventTagParams, LiveEventProxy, status_text, protocol_text, web, relays_tag, proxy_tag,
  warning_tag, participants_tag, build_live_event_tags,
}

-- The values behind the first tag of a name, `none` without one.
unfoldable pub values_of : String → List Tag → Option (List String)
values_of name [] = none
values_of name ([] ∷ tags) = values_of name tags
values_of name ((key ∷ values) ∷ tags) = if key == name then some values else values_of name tags

-- All hashtags.
unfoldable pub hashtags : List Tag → List String
hashtags [] = []
hashtags ((key ∷ value ∷ []) ∷ tags) = if key == "t" then value ∷ hashtags tags else hashtags tags
hashtags (_ ∷ tags) = hashtags tags

-- Hashtags hide no tag of another name.
values_of-hashtags :
    (name : String) (ts : List String) (tags : List Tag)
    → ("t" == name) ≡ false
    → values_of name (map (λ t. "t" ∷ t ∷ []) ts ++ tags) ≡ values_of name tags
unfolding values_of
values_of-hashtags name [] tags h = refl
values_of-hashtags name (t ∷ ts) tags h = rw h (values_of-hashtags name ts tags h)

-- What stands behind the optional tags.
abbrev pub given_relays : List String → Option (List String)
given_relays [] = none
given_relays (r ∷ rs) = some (r ∷ rs)

abbrev pub given_proxy : Option LiveEventProxy → Option (List String)
given_proxy none = none
given_proxy (some p) = some (p.url ∷ protocol_text (or_else p.protocol web) ∷ [])

abbrev pub given_warning : String → Option (List String)
given_warning reason = if reason == "" then none else some (reason ∷ [])

abbrev pub given_participants : Option ℕ → Option (List String)
given_participants none = none
given_participants (some n) = some (decimal n ∷ [])

-- What a client reads: every field of the event, the optional ones absent exactly when not given.
pub record ReadsBack (p : LiveEventTagParams) (tags : List Tag) : Type 0 where
  pub d : values_of "d" tags ≡ some (p.d_tag ∷ [])
  pub title : values_of "title" tags ≡ some (p.metadata.title ∷ [])
  pub summary : values_of "summary" tags ≡ some (p.metadata.summary ∷ [])
  pub image : values_of "image" tags ≡ some (p.metadata.image ∷ [])
  pub streaming : values_of "streaming" tags ≡ some (p.streaming_url ∷ [])
  pub status : values_of "status" tags ≡ some (status_text p.status ∷ [])
  pub starts : values_of "starts" tags ≡ some (decimal p.starts_timestamp ∷ [])
  pub host : values_of "p" tags ≡ some (p.host_pubkey ∷ "" ∷ "host" ∷ [])
  pub topics : hashtags tags ≡ p.metadata.tags
  pub relays : values_of "relays" tags ≡ given_relays p.relays
  pub proxy : values_of "proxy" tags ≡ given_proxy p.proxy
  pub warning : values_of "content-warning" tags ≡ given_warning p.content_warning
  pub participants :
      values_of "current_participants" tags ≡ given_participants p.current_participants

hashtags-map :
    (ts : List String) (tags : List Tag)
    → hashtags (map (λ t. "t" ∷ t ∷ []) ts ++ tags) ≡ ts ++ hashtags tags
unfolding hashtags
hashtags-map [] tags = refl
hashtags-map (t ∷ ts) tags = rw (hashtags-map ts tags)

abbrev optional_tags : List String → Option LiveEventProxy → String → Option ℕ → List Tag
optional_tags rs p w n = relays_tag rs ++ (proxy_tag p ++ (warning_tag w ++ participants_tag n))

optional_reads :
    (rs : List String) (p : Option LiveEventProxy) (w : String) (n : Option ℕ)
    → (values_of "relays" (optional_tags rs p w n) ≡ given_relays rs)
      × (values_of "proxy" (optional_tags rs p w n) ≡ given_proxy p)
      × (values_of "content-warning" (optional_tags rs p w n) ≡ given_warning w)
      × (values_of "current_participants" (optional_tags rs p w n) ≡ given_participants n)
unfolding values_of
optional_reads [] none w none = ground arith
optional_reads [] none w (some n) = ground arith
optional_reads [] (some p) w none = ground arith
optional_reads [] (some p) w (some n) = ground arith
optional_reads (r ∷ rs) none w none = ground arith
optional_reads (r ∷ rs) none w (some n) = ground arith
optional_reads (r ∷ rs) (some p) w none = ground arith
optional_reads (r ∷ rs) (some p) w (some n) = ground arith

hashtags-rest :
    (p : Option LiveEventProxy) (w : String) (n : Option ℕ)
    → hashtags (proxy_tag p ++ (warning_tag w ++ participants_tag n)) ≡ []
unfolding hashtags
hashtags-rest none w none = ground arith
hashtags-rest none w (some n) = ground arith
hashtags-rest (some p) w none = ground arith
hashtags-rest (some p) w (some n) = ground arith

optional_hashtags :
    (rs : List String) (p : Option LiveEventProxy) (w : String) (n : Option ℕ)
    → hashtags (optional_tags rs p w n) ≡ []
unfolding hashtags
optional_hashtags [] p w n = hashtags-rest p w n
optional_hashtags (r ∷ []) p w n = hashtags-rest p w n
optional_hashtags (r ∷ q ∷ rs) p w n = hashtags-rest p w n

-- A client reads every field of the event back from its tags, whatever hashtags stand among them.
pub build_live_event_tags-ReadsBack :
    (p : LiveEventTagParams) → ReadsBack p (build_live_event_tags p)
unfolding build_live_event_tags values_of hashtags
build_live_event_tags-ReadsBack p =
    let ts = p.metadata.tags in
    let rest = optional_tags p.relays p.proxy p.content_warning p.current_participants in
    let reads = optional_reads p.relays p.proxy p.content_warning p.current_participants in
    record {
      d = refl;
      title = refl;
      summary = refl;
      image = refl;
      streaming = refl;
      status = refl;
      starts = refl;
      host = refl;
      topics =
          hashtags-map ts rest
          ∙ ap (◌++◌ ts)
              (optional_hashtags p.relays p.proxy p.content_warning p.current_participants)
          ∙ append-nil ts;
      relays = values_of-hashtags "relays" ts rest refl ∙ reads.0;
      proxy = values_of-hashtags "proxy" ts rest refl ∙ reads.1;
      warning = values_of-hashtags "content-warning" ts rest refl ∙ reads.2;
      participants = values_of-hashtags "current_participants" ts rest refl ∙ reads.3;
    }
