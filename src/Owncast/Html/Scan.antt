-- ===== src/Owncast/Html/Scan.antt =====
-- html.ts: the rendered HTML as a reader of tags sees it.
use livelier.Base.{
  ℕ, ◌+◌, Bool, true, false, ◌≡◌, Option, none, some, is_some, List, [], ◌∷◌, eqb, if◌then◌else◌,
}
use livelier.Owncast.Liveness.{Text}
use livelier.Owncast.Html.{Token, url, mention, emoji, other, is_web_url}

-- Between tags, inside a tag, and inside a quoted attribute.
pub data State : Type 0 where
  content : State
  tag : State
  quoted : State

abbrev pub read : State → ℕ → State
read content c = if eqb c 60 then tag else content
read tag c = if eqb c 34 then quoted else if eqb c 62 then content else tag
read quoted c = if eqb c 34 then tag else quoted

abbrev pub scan : State → Text → State
scan s [] = s
scan s (c ∷ cs) = scan (read s c) cs

-- How many tags are opened.
abbrev pub opens : State → ℕ → ℕ
opens content c = if eqb c 60 then 1 else 0
opens tag c = 0
opens quoted c = 0

abbrev pub tags : State → Text → ℕ
tags s [] = 0
tags s (c ∷ cs) = opens s c + tags (read s c) cs

-- The line breaks of a text.
abbrev pub lines : Text → ℕ
lines [] = 0
lines (c ∷ cs) = (if eqb c 10 then 1 else 0) + lines cs

-- A text that leads from one state to another, and opens so many tags.
abbrev pub Passes : State → Text → State → ℕ → Type 0
Passes s t e n = (scan s t ≡ e) × (tags s t ≡ n)

-- The tags that a token may open: those of the line breaks in its text, and its own.
abbrev pub text_of : Token → Text
text_of (url value _) = value
text_of (mention value _) = value
text_of (emoji value _) = value
text_of (other value) = value

-- `if (local)`
abbrev pub is_image : Option Text → Bool
is_image none = false
is_image (some []) = false
is_image (some (_ ∷ _)) = true

module _ (npub_encode : Text → Option Text) (emoji_by_url : Text → Option Text) where
  abbrev pub own_tags : Token → ℕ
  own_tags (url value none) = lines value
  own_tags (url value (some u)) = if is_web_url u then 2 + lines value else lines value
  own_tags (mention value none) = lines value
  own_tags (mention value (some pubkey)) =
      if is_some (npub_encode pubkey) then 2 + lines value else lines value
  own_tags (emoji value none) = lines value
  own_tags (emoji value (some u)) =
      if is_web_url u
      then (if is_image (emoji_by_url u) then 1 else 2 + lines value)
      else lines value
  own_tags (other value) = lines value

  abbrev pub all_tags : List Token → ℕ
  all_tags [] = 0
  all_tags (t ∷ ts) = own_tags t + all_tags ts
