-- ===== src/Site/Queries/Laws.antt =====
-- queries.ts: the site reads what the bridge publishes, and the newest of what it reads.
use livelier.Base.{
  ℕ, String, false, not, ◌≡◌, refl, Option, none, some, is_some, List, [], ◌∷◌, ◌++◌, map, any,
  ◌==◌, arith, ap, sym, ◌∙◌, Bool-cases, inl, inr, eq_iff,
}
use mathlib.Core.List.{append-nil}
use livelier.Base.Text.{decimal, decimal_from, digit, glyph_at}
use livelier.Client.Replaceable.{Event, item}
use livelier.Client.Replaceable.Keys.{read_digits, read_digits-decimal}
use livelier.Discovery.Tags.{
  Tag, LiveEventTagParams, LiveEventProxy, status_text, build_live_event_tags, relays_tag,
  proxy_tag, warning_tag, participants_tag,
}
use livelier.Discovery.Tags.Laws.{
  values_of, given_proxy, given_warning, build_live_event_tags-ReadsBack,
}
use livelier.Site.Queries.{
  tag, tags, is_named, prepend, Channel, to_channel, digits, other, given_number, number,
}

first_value : Option (List String) → Option String
first_value none = none
first_value (some []) = none
first_value (some (v ∷ _)) = some v

tag-values_of : (name : String) (ts : List Tag) → tag name ts ≡ first_value (values_of name ts)
unfolding tag values_of is_named item first_value
tag-values_of name [] = refl
tag-values_of name ([] ∷ ts) = tag-values_of name ts
tag-values_of name ((key ∷ []) ∷ ts) = ground (arith, tag-values_of name ts)
tag-values_of name ((key ∷ v ∷ vs) ∷ ts) = ground (arith, tag-values_of name ts)

any-is_named :
    (name : String) (ts : List Tag) → any (is_named name) ts ≡ is_some (values_of name ts)
unfolding is_named values_of
any-is_named name [] = refl
any-is_named name ([] ∷ ts) = any-is_named name ts
any-is_named name ((key ∷ vs) ∷ ts) = ground (arith, any-is_named name ts)

tags_absent : (name : String) (ts : List Tag) → values_of name ts ≡ none → tags name ts ≡ []
unfolding tags values_of is_named
tags_absent name [] h = refl
tags_absent name ([] ∷ ts) h = tags_absent name ts h
tags_absent name ((key ∷ vs) ∷ ts) h = ground (arith, h, tags_absent name ts)

tags-map :
    (ts : List String) (rest : List Tag)
    → tags "t" (map (λ t. "t" ∷ t ∷ []) ts ++ rest) ≡ ts ++ tags "t" rest
unfolding tags is_named item prepend
tags-map [] rest = refl
tags-map (t ∷ ts) rest = ap (◌∷◌ t) (tags-map ts rest)

optional_untopical :
    (rs : List String) (p : Option LiveEventProxy) (w : String) (n : Option ℕ)
    → values_of "t" (relays_tag rs ++ (proxy_tag p ++ (warning_tag w ++ participants_tag n))) ≡ none
unfolding values_of
optional_untopical [] none w none = ground arith
optional_untopical [] none w (some n) = ground arith
optional_untopical [] (some p) w none = ground arith
optional_untopical [] (some p) w (some n) = ground arith
optional_untopical (r ∷ rs) none w none = ground arith
optional_untopical (r ∷ rs) none w (some n) = ground arith
optional_untopical (r ∷ rs) (some p) w none = ground arith
optional_untopical (r ∷ rs) (some p) w (some n) = ground arith

topics-build : (p : LiveEventTagParams) → tags "t" (build_live_event_tags p) ≡ p.metadata.tags
unfolding build_live_event_tags tags is_named
topics-build p =
    let rest =
      relays_tag p.relays
      ++ (proxy_tag p.proxy
          ++ (warning_tag p.content_warning ++ participants_tag p.current_participants)) in
    tags-map p.metadata.tags rest
    ∙ ap (◌++◌ p.metadata.tags) (
        tags_absent "t" rest
          (optional_untopical p.relays p.proxy p.content_warning p.current_participants))
    ∙ append-nil p.metadata.tags

decimal-nonempty : (n : ℕ) → (decimal n == "") ≡ false
decimal-nonempty n = elim (Bool-cases (decimal n == "")) [
  | inr full ↦ full
  | inl y ↦
      let empty : decimal n ≡ "" = (eq_iff (decimal n) "").0 y in
      let zero_n : some 0 ≡ some n =
        unfold read_digits in
        ap (λ s. read_digits s (some 0)) (sym empty) ∙ read_digits-decimal n in
      let same : n ≡ 0 = ground (arith, zero_n) in
      absurd (ground (arith, ap (λ k. decimal k == "") same, y, zero_shown))
]
  where
    zero_shown : (decimal 0 == "") ≡ false
    zero_shown = unfold decimal decimal_from digit glyph_at in refl

number-decimal : (n : ℕ) → number (decimal n) ≡ digits n
unfolding number
number-decimal n =
    ap (λ o. elim o [ none ↦ other (decimal n) | some k ↦ digits k ]) (read_digits-decimal n)

given_number-decimal : (n : ℕ) → given_number (some (decimal n)) ≡ some (digits n)
unfolding given_number
given_number-decimal n = rw (decimal-nonempty n, number-decimal n) refl

-- The fields of a channel whose event has the tags of a live event.
abbrev pub channel_of : LiveEventTagParams → Event → Channel
channel_of p event = record {
  event = event;
  d_tag = p.d_tag;
  title = p.metadata.title;
  summary = some p.metadata.summary;
  image = some p.metadata.image;
  streaming = some p.streaming_url;
  status = status_text p.status;
  starts = some (digits p.starts_timestamp);
  host_pubkey = some p.host_pubkey;
  proxy_url = elim p.proxy [ none ↦ none | some proxy ↦ some proxy.url ];
  topics = p.metadata.tags;
  nsfw = not (p.content_warning == "");
}

proxy_url :
    (o : Option LiveEventProxy)
    → first_value (given_proxy o) ≡ elim o [ none ↦ none | some proxy ↦ some proxy.url ]
unfolding first_value
proxy_url none = refl
proxy_url (some proxy) = refl

warned : (w : String) → is_some (given_warning w) ≡ not (w == "")
warned w = ground arith

first-decimal : (n : ℕ) → first_value (some (decimal n ∷ [])) ≡ some (decimal n)
unfolding first_value
first-decimal n = refl

-- The site shows a live event of the bridge with the fields that the bridge gave it.
pub to_channel-build_live_event_tags :
    (p : LiveEventTagParams) (event : Event)
    → to_channel (record event { tags = build_live_event_tags p })
      ≡ channel_of p (record event { tags = build_live_event_tags p })
unfolding to_channel
to_channel-build_live_event_tags p event =
    let ts = build_live_event_tags p in
    let r = build_live_event_tags-ReadsBack p in
    let read = λ (name : String) (vs : Option (List String)) (e : values_of name ts ≡ vs).
      tag-values_of name ts ∙ ap first_value e in
    rw
      (
        read "d" _ r.d,
        read "title" _ r.title,
        read "summary" _ r.summary,
        read "image" _ r.image,
        read "streaming" _ r.streaming,
        read "status" _ r.status,
        read "starts" _ r.starts,
        read "p" _ r.host,
        read "proxy" _ r.proxy,
        topics-build p,
        any-is_named "content-warning" ts,
        r.warning,
        proxy_url p.proxy,
        warned p.content_warning,
        ap given_number (first-decimal p.starts_timestamp)
            ∙ given_number-decimal p.starts_timestamp,
      )
      (unfold first_value in refl)
