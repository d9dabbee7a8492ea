-- ===== src/Chat/Source.antt =====
-- chat-bridge.service.ts, source to Nostr: `handleSourceChat`, `handleSourceJoin` and what they publish.
-- `fresh_key` is the public key of a new random signer. The handlers run on the room object that the
-- listener was opened with; a handler of a room that was closed has no room to change.
use livelier.Base.{
  ℕ, suc, ◌+◌, ◌/◌, String, Option, none, some, List, [], ◌∷◌, ◌++◌, if◌then◌else◌, ◌==◌, map,
}
use livelier.Base.Dict.{lookup, insert}
use livelier.Base.Keys.{mem, add}
use livelier.Base.Text.{cat, decimal}
use livelier.Discovery.Tags.{Tag}
use livelier.Chat.Fingerprint.{fingerprint, has_fingerprint, add_fingerprint}
use livelier.Chat.State.{
  ChatServiceConfig, SourceChatMessage, SourceChatJoin, text, profile, Outbound, Room, Service,
}
use livelier.Chat.Nostr.{set_room}

-- `chatterSigner`: the key of a chatter, made at first use and then known as the bridge's own.
abbrev pub signer_of : String → String → Option String → Room → Service → String × Room × Service
signer_of fresh_key user_id none room s = (
  fresh_key,
  record room { chatter_signers = insert user_id fresh_key room.chatter_signers },
  record s { bridged_pubkeys = add fresh_key s.bridged_pubkeys },
)
signer_of fresh_key user_id (some key) room s = (key, room, s)

unfoldable pub chatter_signer : String → String → Room → Service → String × Room × Service
unfolding lookup insert add mem
chatter_signer fresh_key user_id room s =
    signer_of fresh_key user_id (lookup user_id room.chatter_signers) room s

abbrev pub publish : Outbound → Service → Service
publish p s = record s { published = p ∷ s.published }

module _ (config : ChatServiceConfig) (now : ℕ) where
  unfoldable pub publish_chatter_identity : String → String → String → Service → Service
  publish_chatter_identity signer display_name url s =
      let about =
        cat "Chat participant on "
          (cat url (cat ", bridged from " (cat config.source_name " by https://livelier.live"))) in
      publish
        (record {
          author = signer;
          kind = 10002;
          body = text "";
          tags = ("r" ∷ config.chat_relay_url ∷ []) ∷ [];
          relays = config.profile_write_relays;
        })
        (publish
          (record {
            author = signer;
            kind = 0;
            body = profile (record { name = display_name; about = about });
            tags = [];
            relays = config.profile_write_relays;
          })
          s)

  -- The tags that a bridged message and a presence share.
  unfoldable pub room_tags : Room → List Tag
  unfolding decimal
  room_tags room =
      ("a" ∷ room.a_tag ∷ config.chat_relay_url ∷ "root" ∷ [])
      ∷ ("-" ∷ [])
      ∷ ("expiration" ∷ decimal (now / 1000 + config.chat_expiration_seconds) ∷ [])
      ∷ []

  -- The chatter's key and, once per session and room, the chatter's profile.
  unfoldable pub introduce : String → String → String → Room → Service → String × Room × Service
  unfolding chatter_signer publish_chatter_identity mem add
  introduce fresh_key user_id display_name room s =
      let signed = chatter_signer fresh_key user_id room s in
      if mem user_id room.profiled_chatters then signed else (
        signed.0,
        record signed.1 { profiled_chatters = add user_id room.profiled_chatters },
        publish_chatter_identity signed.0 display_name room.row.url signed.2,
      )

  unfoldable pub handle_source_join : String → SourceChatJoin → Room → Service → Service
  unfolding introduce room_tags insert
  handle_source_join fresh_key join room s =
      let known = introduce fresh_key join.user_id join.display_name room s in
      publish
        (record {
          author = known.0;
          kind = 10312;
          body = text "";
          tags = room_tags room;
          relays = [];
        })
        (set_room room.row.url known.1 known.2)

  -- `handleSourceChat` on a message that has text.
  unfoldable pub bridge_message : String → SourceChatMessage → Room → Service → Service
  unfolding introduce room_tags insert
  bridge_message fresh_key msg room s =
      let known = introduce fresh_key msg.user_id msg.display_name room s in
      let after =
        publish
          (record {
            author = known.0;
            kind = 1311;
            body = text msg.text;
            tags = room_tags room ++ map (λ e. "emoji" ∷ e.shortcode ∷ e.image_url ∷ []) msg.emojis;
            relays = [];
          })
          (set_room room.row.url known.1 known.2) in
      record after {
        outbound_published = suc after.outbound_published;
        published_since_check = suc after.published_since_check;
      }

  unfoldable pub handle_source_chat : String → SourceChatMessage → Room → Service → Service
  unfolding bridge_message fingerprint has_fingerprint add_fingerprint insert
  handle_source_chat fresh_key msg room s =
      if msg.text == ""
      then s
      else let fp = fingerprint msg.display_name msg.text in
        let seen = has_fingerprint now fp room.fingerprints in
        let known = set_room room.row.url (record room { fingerprints = seen.1 }) s in
        let noted = record room { fingerprints = add_fingerprint now fp seen.1 } in
        if seen.0 then known else bridge_message fresh_key msg noted s
