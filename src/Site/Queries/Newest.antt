-- ===== src/Site/Queries/Newest.antt =====
-- queries.ts: which profile and which live event the site shows where it got several.
use livelier.Base.{
  String, ◌≡◌, refl, Option, none, some, List, [], ◌∷◌, length, leb, ◌==◌, if◌then◌else◌, arith, ap,
  ◌∙◌, eq_iff,
}
use livelier.Base.Dict.{Dict, lookup, lookup-insert}
use livelier.Client.Replaceable.{Event}
use livelier.Site.Queries.{
  ChannelProfile, profile_from, SiteConfig, SiteFilter, ReadResult, parse_profile, keep_profile,
  collect_profiles, fetch_channel_profiles,
}

-- The newer of two profiles, the first one of two that are equally new.
abbrev pub newer : Option ChannelProfile → Option ChannelProfile → Option ChannelProfile
newer none b = b
newer (some a) none = some a
newer (some a) (some b) = if leb b.created_at a.created_at then some a else some b

newer_assoc : (a b c : Option ChannelProfile) → newer (newer a b) c ≡ newer a (newer b c)
newer_assoc none b c = refl
newer_assoc (some a) none c = refl
newer_assoc (some a) (some b) none = ground arith
newer_assoc (some a) (some b) (some c) = ground arith

-- A profile has the time of its event.
Dated : Event → Option ChannelProfile → Type 0
Dated e none = Unit
Dated e (some p) = p.created_at ≡ e.created_at

profile_from-Dated : (e : Event) (o : Option (Dict String)) → Dated e (profile_from e o)
unfolding profile_from Dated
profile_from-Dated e none = tt
profile_from-Dated e (some parsed) = refl

keep_profile-lookup :
    (k : String) (e : Event) (o : Option ChannelProfile) (m : Dict ChannelProfile)
    → Dated e o
    → lookup k (keep_profile e o m) ≡ newer (lookup k m) (if e.pubkey == k then o else none)
unfolding keep_profile Dated
keep_profile-lookup k e none m d = ground arith
keep_profile-lookup k e (some p) m d =
    ground (arith, d, lookup-insert e.pubkey k p m, eq_iff e.pubkey k)

abbrev pub profile_filter : List String → SiteFilter
profile_filter ps = record { kinds = 0 ∷ []; authors = some ps; d = none; limit = length ps }

module _ (json : String → Option (Dict String)) where
  -- The profile of an event, if it is one of `pubkey`.
  abbrev pub profile_for : String → Event → Option ChannelProfile
  profile_for pubkey e = if e.pubkey == pubkey then parse_profile json e else none

  -- The newest of the profiles of a pubkey that can be read.
  abbrev pub newest_profile : String → List Event → Option ChannelProfile
  newest_profile pubkey [] = none
  newest_profile pubkey (e ∷ es) = newer (profile_for pubkey e) (newest_profile pubkey es)

  collect_profiles-newest :
      (k : String) (es : List Event) (m : Dict ChannelProfile)
      → lookup k (collect_profiles json es m) ≡ newer (lookup k m) (newest_profile k es)
  unfolding collect_profiles parse_profile
  collect_profiles-newest k [] m = ground arith
  collect_profiles-newest k (e ∷ es) m =
      let o = profile_from e (json e.content) in
      collect_profiles-newest k es (keep_profile e o m)
      ∙ ap (λ x. newer x (newest_profile k es))
          (keep_profile-lookup k e o m (profile_from-Dated e (json e.content)))
      ∙ newer_assoc (lookup k m) (if e.pubkey == k then o else none) (newest_profile k es)

  -- Of the profiles that the chat relay has of a channel, the site shows the newest one that it can
  -- read, the first one of those that are equally new.
  pub fetch_channel_profiles-newest :
      (config : SiteConfig) (fetch_events : List String → SiteFilter → ReadResult) (p : String)
      (ps : List String) (pubkey : String)
      → lookup pubkey (fetch_channel_profiles config fetch_events json (p ∷ ps))
        ≡ newest_profile pubkey
            (fetch_events (config.chat_relay ∷ []) (profile_filter (p ∷ ps))).events
  unfolding fetch_channel_profiles lookup
  fetch_channel_profiles-newest config fetch_events p ps pubkey =
      collect_profiles-newest pubkey
        (fetch_events (config.chat_relay ∷ []) (profile_filter (p ∷ ps))).events []
