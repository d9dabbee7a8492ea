-- ===== src/Chat/Relays.antt =====
-- packages/bridge/src/core/relays.ts: where profiles are written, and where network chat is read.
use livelier.Base.{
  String, Bool, not, ◌&&◌, ◌||◌, ◌≡◌, refl, List, [], ◌∷◌, if◌then◌else◌, keep, ◌==◌, arith, eq_iff,
  if-cases,
}
use livelier.Base.Keys.{mem, dedupe, mem-add_all, add_all-Distinct, Distinct}

pub record RelayFlagConfig : Type 0 where
  pub chat_relay_url : String
  pub network_profile_publish_enabled : Bool
  pub network_chat_read_enabled : Bool
  pub network_profile_write_relays : List String
  pub network_chat_read_relays : List String

unfoldable pub profile_write_relays : RelayFlagConfig → List String
unfolding dedupe
profile_write_relays config =
    if not config.network_profile_publish_enabled
    then config.chat_relay_url ∷ []
    else dedupe (config.chat_relay_url ∷ config.network_profile_write_relays)

unfoldable pub network_chat_read_relays : RelayFlagConfig → List String
network_chat_read_relays config =
    if not config.network_chat_read_enabled
    then []
    else keep (λ url. not (url == config.chat_relay_url)) config.network_chat_read_relays

mem-keep_other :
    (own j : String) (urls : List String)
    → mem j (keep (λ url. not (url == own)) urls) ≡ (not (j == own) && mem j urls)
unfolding mem
mem-keep_other own j [] = ground arith
mem-keep_other own j (u ∷ urls) =
    ground (arith, eq_iff u own, eq_iff j own, eq_iff u j, mem-keep_other own j urls)

-- A relay gets the profiles exactly if it is the chat relay, or the flag is on and it is one of the
-- network's; no relay gets them twice.
pub profile_write_relays-mem :
    (config : RelayFlagConfig) (relay : String)
    → (mem relay (profile_write_relays config) ≡ (
        config.chat_relay_url == relay
        || (config.network_profile_publish_enabled
            && mem relay config.network_profile_write_relays)))
      × Distinct (profile_write_relays config)
unfolding profile_write_relays dedupe mem
profile_write_relays-mem config relay =
    let all = config.chat_relay_url ∷ config.network_profile_write_relays in
    if-cases
      (λ relays.
        (mem relay relays ≡ (
          config.chat_relay_url == relay
          || (config.network_profile_publish_enabled
              && mem relay config.network_profile_write_relays)))
        × Distinct relays)
      (not config.network_profile_publish_enabled) (λ e. (ground (arith, e), (refl, tt)))
      (λ e. (ground (arith, e, mem-add_all all relay []), add_all-Distinct all [] tt))

-- A relay is read for network chat exactly if the flag is on, it is one of the network's, and it is not
-- the chat relay.
pub network_chat_read_relays-mem :
    (config : RelayFlagConfig) (relay : String)
    → mem relay (network_chat_read_relays config) ≡ (
        config.network_chat_read_enabled
        && not (relay == config.chat_relay_url)
        && mem relay config.network_chat_read_relays)
unfolding network_chat_read_relays mem
network_chat_read_relays-mem config relay =
    ground (arith, mem-keep_other config.chat_relay_url relay config.network_chat_read_relays)
