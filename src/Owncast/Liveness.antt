-- ===== src/Owncast/Liveness.antt =====
-- packages/bridge/src/sources/owncast/discovery/liveness.ts: whether an instance streams, by its
-- playlists. Texts are lists of code points. `fetch` gives the body of an answer that is ok, and `none`
-- for any other and where it throws, which are one to the source; `resolve` is `new URL(variant, base)`.
pub mod Laws
use livelier.Base.{
  ℕ, Bool, true, false, not, ◌&&◌, ◌||◌, Option, none, some, List, [], ◌∷◌, ◌++◌, any, eqb, leb,
  if◌then◌else◌,
}
use livelier.Base.Text.{codes, begins, includes}

pub data OwncastLiveness : Type 0 where
  live : OwncastLiveness
  ended : OwncastLiveness
  error : OwncastLiveness

abbrev pub Text : Type 0
Text = List ℕ

unfoldable pub has_endlist : Text → Bool
unfolding includes codes
has_endlist body = includes (codes "#EXT-X-ENDLIST") body

unfoldable pub has_offline_slate : Text → Bool
unfolding includes codes
has_offline_slate body = includes (codes "stream-offline") body

unfoldable pub has_media_sequence : Text → Bool
unfolding includes codes
has_media_sequence body = includes (codes "#EXT-X-MEDIA-SEQUENCE") body

unfoldable pub has_stream_inf : Text → Bool
unfolding includes codes
has_stream_inf body = includes (codes "#EXT-X-STREAM-INF") body

unfoldable pub classify_media_playlist : Text → OwncastLiveness
unfolding has_endlist has_offline_slate has_media_sequence
classify_media_playlist body =
    if has_endlist body
    then ended
    else if has_offline_slate body
    then ended
    else if has_media_sequence body
    then live
    else error

-- White space, as `trim` reads it.
unfoldable pub is_space : ℕ → Bool
is_space c =
    (leb 9 c && leb c 13)
    || (leb 8192 c && leb c 8202)
    || any (eqb c) (32 ∷ 160 ∷ 5760 ∷ 8232 ∷ 8233 ∷ 8239 ∷ 8287 ∷ 12288 ∷ 65279 ∷ [])

unfoldable pub trim_start : Text → Text
unfolding is_space
trim_start [] = []
trim_start (c ∷ s) = let rest = trim_start s in if is_space c then rest else c ∷ s

unfoldable pub trim_end : Text → Text
unfolding is_space
trim_end [] = []
trim_end (c ∷ s) = elim (trim_end s) [ [] ↦ if is_space c then [] else c ∷ [] | d ∷ t ↦ c ∷ d ∷ t ]

unfoldable pub trim : Text → Text
unfolding trim_start trim_end
trim s = trim_end (trim_start s)

-- `s.split('\n')`, from the line that is being read.
unfoldable pub split_lines : Text → Text → List Text
split_lines line [] = line ∷ []
split_lines line (c ∷ s) = elim (eqb c 10) [
  | true ↦ line ∷ split_lines [] s
  | false ↦ split_lines (line ++ c ∷ []) s
]

-- `!line || line.startsWith('#')`
unfoldable pub is_skipped : Text → Bool
is_skipped [] = true
is_skipped (c ∷ s) = eqb c 35

unfoldable pub first_uri : List Text → Option Text
unfolding is_skipped trim
first_uri [] = none
first_uri (raw ∷ rest) =
    let later = first_uri rest in if is_skipped (trim raw) then later else some (trim raw)

unfoldable pub first_variant_uri : Text → Option Text
unfolding first_uri split_lines
first_variant_uri body = first_uri (split_lines [] body)

module _ (fetch : Text → Option Text) (resolve : Text → Text → Option Text) where
  -- The media playlist of a variant.
  unfoldable pub check_url : Option Text → OwncastLiveness
  unfolding classify_media_playlist
  check_url none = error
  check_url (some url) = elim (fetch url) [
    | none ↦ error
    | some body ↦ classify_media_playlist body
  ]

  unfoldable pub check_variant : Text → Option Text → OwncastLiveness
  unfolding check_url
  check_variant hls_url none = error
  check_variant hls_url (some variant) = check_url (resolve variant hls_url)

  unfoldable pub check_body : Text → Option Text → OwncastLiveness
  unfolding check_variant first_variant_uri classify_media_playlist has_stream_inf
  check_body hls_url none = error
  check_body hls_url (some body) =
      if has_endlist body
      then ended
      else if has_media_sequence body
      then classify_media_playlist body
      else if has_stream_inf body
      then check_variant hls_url (first_variant_uri body)
      else error

  unfoldable pub check_owncast_hls_liveness : Text → OwncastLiveness
  unfolding check_body
  check_owncast_hls_liveness hls_url = check_body hls_url (fetch hls_url)
