-- ===== src/Owncast/Html.antt =====
-- packages/bridge/src/sources/owncast/chat/html.ts: text and tokens to the HTML of an Owncast chat, and
-- the entities back. Texts are lists of code points; `npub_encode` of nostr-tools is a parameter, with
-- `none` where it throws. The regular expressions that strip tags are left out.
pub mod Escape
pub mod Scan
use livelier.Base.{
  ℕ, zero, suc, ◌+◌, ◌-◌, Bool, true, false, not, ◌&&◌, ◌||◌, Option, none, some, is_some, List, [],
  ◌∷◌, ◌++◌, any, length, eqb, leb, if◌then◌else◌,
}
use livelier.Base.Text.{codes, begins}
use livelier.Owncast.Liveness.{Text, is_space}

-- `text.replace(/c/g, by)`
unfoldable pub replace_char : ℕ → Text → Text → Text
replace_char c by [] = []
replace_char c by (x ∷ s) = (if eqb x c then by else x ∷ []) ++ replace_char c by s

unfoldable pub escape_text : Text → Text
unfolding replace_char codes
escape_text text = replace_char 10 (codes "<br/>") (
    replace_char 39 (codes "&#39;") (
      replace_char 34 (codes "&quot;") (
        replace_char 62 (codes "&gt;")
          (replace_char 60 (codes "&lt;") (replace_char 38 (codes "&amp;") text)))))

unfoldable pub text_to_owncast_html : Text → Text
unfolding escape_text codes
text_to_owncast_html text = codes "<p>" ++ (escape_text text ++ codes "</p>")

-- `/^https?:\/\/\S+$/i`: a character without regard to case, and the rest without white space.
unfoldable pub begins_any_case : List ℕ → Text → Bool
begins_any_case [] s = true
begins_any_case (p ∷ ps) [] = false
begins_any_case (p ∷ ps) (c ∷ s) =
    (eqb p c || (leb 65 c && leb c 90 && eqb p (c + 32))) && begins_any_case ps s

unfoldable pub drop : ℕ → Text → Text
drop zero s = s
drop (suc n) [] = []
drop (suc n) (_ ∷ s) = drop n s

unfoldable pub is_spaceless : Text → Bool
unfolding is_space
is_spaceless s = not (any is_space s) && leb 1 (length s)

unfoldable pub is_web_url : Text → Bool
unfolding begins_any_case drop is_spaceless codes
is_web_url url =
    (begins_any_case (codes "http://") url && is_spaceless (drop 7 url))
    || (begins_any_case (codes "https://") url && is_spaceless (drop 8 url))

unfoldable pub anchor : Text → Text → Text
unfolding escape_text codes
anchor href label =
    codes "<a href=\"" ++ (escape_text href ++ (codes "\">" ++ (escape_text label ++ codes "</a>")))

-- What the rendering reads of a token: its type, and the metadata that goes with it.
pub data Token : Type 0 where
  url : Text → Option Text → Token
  mention : Text → Option Text → Token
  emoji : Text → Option Text → Token
  other : Text → Token

unfoldable pub image : Text → Text → Text
unfolding escape_text codes
image src value =
    codes "<img src=\""
    ++ (escape_text src
        ++ (codes "\" class=\"emoji\" alt=\""
            ++ (escape_text value ++ (codes "\" title=\"" ++ (escape_text value ++ codes "\"/>")))))

-- The branch of an emoji whose image is a web URL: an asset of the instance, or a link.
unfoldable pub render_emoji : Text → Text → Option Text → Text
unfolding image anchor
render_emoji value image_url (some (c ∷ local)) = image (c ∷ local) value
render_emoji value image_url (some []) = anchor image_url value
render_emoji value image_url none = anchor image_url value

unfoldable pub render_mention : Text → Option Text → Text
unfolding anchor escape_text codes
render_mention value none = escape_text value
render_mention value (some npub) = anchor (codes "https://njump.me/" ++ npub) value

module _ (npub_encode : Text → Option Text) (emoji_by_url : Text → Option Text) where
  unfoldable pub render : Token → Text
  unfolding is_web_url render_emoji render_mention anchor escape_text
  render (url value none) = escape_text value
  render (url value (some u)) = if is_web_url u then anchor u value else escape_text value
  render (mention value none) = escape_text value
  render (mention value (some pubkey)) = render_mention value (npub_encode pubkey)
  render (emoji value none) = escape_text value
  render (emoji value (some u)) =
      if is_web_url u then render_emoji value u (emoji_by_url u) else escape_text value
  render (other value) = escape_text value

  unfoldable pub render_all : List Token → Text
  unfolding render
  render_all [] = []
  render_all (t ∷ ts) = render t ++ render_all ts

  unfoldable pub tokens_to_owncast_html : List Token → Text
  unfolding render_all codes
  tokens_to_owncast_html tokens = codes "<p>" ++ (render_all tokens ++ codes "</p>")

-- `text.split(entity).join(ch)`: `skip` counts what is left of an entity that was found.
unfoldable pub replace_entity : Text → Text → ℕ → Text → Text
unfolding begins
replace_entity entity ch skip [] = []
replace_entity entity ch (suc skip) (x ∷ s) = replace_entity entity ch skip s
replace_entity entity ch zero (x ∷ s) = elim (begins entity (x ∷ s)) [
  | true ↦ ch ++ replace_entity entity ch (length entity - 1) s
  | false ↦ x ∷ replace_entity entity ch zero s
]

-- The loop of `owncastHtmlToText` over the named entities, in their order.
unfoldable pub decode_entities : Text → Text
unfolding replace_entity codes
decode_entities text =
    let a = replace_entity (codes "&amp;") (38 ∷ []) 0 text in
    let b = replace_entity (codes "&lt;") (60 ∷ []) 0 a in
    let c = replace_entity (codes "&gt;") (62 ∷ []) 0 b in
    let d = replace_entity (codes "&quot;") (34 ∷ []) 0 c in
    let e = replace_entity (codes "&#39;") (39 ∷ []) 0 d in
    let f = replace_entity (codes "&apos;") (39 ∷ []) 0 e in
    replace_entity (codes "&nbsp;") (32 ∷ []) 0 f
