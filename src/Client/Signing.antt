-- ===== src/Client/Signing.antt =====
-- client.service.ts: `createSignedEvent`, which shares and keeps signatures under a hash of the request.
-- A hash is the residue of the signed number of the source, modulo 2 ^ 32; `toString(16)` is injective
-- on those, so that the residue itself is the key. The signer is outside: that it returns is a step.
pub mod Hash
pub mod Laws
use Prim.Native.Char.{Char, code}
use Prim.Native.String
use livelier.Base.{
  ℕ, ◌+◌, ◌-◌, ◌*◌, ◌/◌, ◌%◌, ◌^◌, String, Bool, true, false, Option, none, some, List, [], ◌∷◌,
  ◌++◌, ltb, eqb, if◌then◌else◌, ◌==◌,
}
use livelier.Base.Text.{cat, decimal, glyph_at}
use livelier.Client.Replaceable.{Event}

-- `hash = ((hash << 5) - hash) + char; hash = hash & hash`, on residues.
unfoldable pub hash_step : ℕ → ℕ → ℕ
hash_step hash char = (hash * 32 % 2 ^ 32 + (2 ^ 32 - hash) + char) % 2 ^ 32

unfoldable pub hash_from : ℕ → List ℕ → ℕ
unfolding hash_step
hash_from hash [] = hash
hash_from hash (char ∷ chars) = hash_from (hash_step hash char) chars

-- The UTF-16 units of a character, as `charCodeAt` gives them.
unfoldable pub units_of : ℕ → List ℕ
units_of c =
    if ltb c 65536 then c ∷ [] else (55296 + (c - 65536) / 1024) ∷ (56320 + (c - 65536) % 1024) ∷ []

unfoldable pub units : String → List ℕ
unfolding units_of
units String.[] = []
units (String.◌∷◌ c s) = units_of (code c) ++ units s

pub record SigningRequest : Type 0 where
  pub kind : ℕ
  pub content : String
  pub tags : List (List String)
  pub pubkey : String

-- How `JSON.stringify` writes a character.
unfoldable pub hex_digit : ℕ → String
unfolding glyph_at
hex_digit = glyph_at (
    "0" ∷ "1" ∷ "2" ∷ "3" ∷ "4" ∷ "5" ∷ "6" ∷ "7" ∷ "8" ∷ "9" ∷ "a" ∷ "b" ∷ "c" ∷ "d" ∷ "e" ∷ "f"
    ∷ [])

unfoldable pub escape_char : Char → String
unfolding hex_digit
escape_char c =
    let n = code c in
    if eqb n 34
    then "\\\""
    else if eqb n 92
    then "\\\\"
    else if eqb n 8
    then "\\b"
    else if eqb n 9
    then "\\t"
    else if eqb n 10
    then "\\n"
    else if eqb n 12
    then "\\f"
    else if eqb n 13
    then "\\r"
    else if ltb n 32
    then cat "\\u00" (cat (hex_digit (n / 16)) (hex_digit (n % 16)))
    else String.◌∷◌ c String.[]

unfoldable pub escape : String → String
unfolding escape_char
escape String.[] = ""
escape (String.◌∷◌ c s) = cat (escape_char c) (escape s)

unfoldable pub json_text : String → String
unfolding escape
json_text s = cat "\"" (cat (escape s) "\"")

unfoldable pub json_texts : List String → String
unfolding json_text
json_texts [] = ""
json_texts (s ∷ []) = json_text s
json_texts (s ∷ rest) = cat (json_text s) (cat "," (json_texts rest))

unfoldable pub json_tags : List (List String) → String
unfolding json_texts
json_tags [] = ""
json_tags (tag ∷ []) = cat "[" (cat (json_texts tag) "]")
json_tags (tag ∷ rest) = cat "[" (cat (json_texts tag) (cat "]," (json_tags rest)))

-- `JSON.stringify({ kind, content, tags, pubkey })`
unfoldable pub hash_input : SigningRequest → String
unfolding json_text json_tags
hash_input r = cat "{\"kind\":" (
    cat (decimal r.kind) (
      cat ",\"content\":" (
        cat (json_text r.content) (
          cat ",\"tags\":["
            (cat (json_tags r.tags) (cat "],\"pubkey\":" (cat (json_text r.pubkey) "}")))))))

unfoldable pub hash_event_request : SigningRequest → ℕ
unfolding hash_from units hash_input
hash_event_request r = hash_from 0 (units (hash_input r))

-- The request in flight and those that share it; its signature is what `performSigning` returns.
pub record Signing : Type 0 where
  pub signed_event_cache : List (ℕ × Event)
  pub inflight_requests : List (ℕ × SigningRequest)
  -- the hash and the event of each cleanup timer
  pub cleanup_timers : List ℕ

pub data Answer : Type 0 where
  cached : Event → Answer
  -- the promise of the request in flight
  shared : SigningRequest → Answer
  started : Answer

module _ {ℓ} {V : Type ℓ} where
  unfoldable pub find_hash : ℕ → List (ℕ × V) → Option V
  find_hash hash [] = none
  find_hash hash ((h, v) ∷ rest) = if eqb h hash then some v else find_hash hash rest

  unfoldable pub set_hash : ℕ → V → List (ℕ × V) → List (ℕ × V)
  set_hash hash v [] = (hash, v) ∷ []
  set_hash hash v ((h, w) ∷ rest) =
      if eqb h hash then (hash, v) ∷ rest else (h, w) ∷ set_hash hash v rest

  unfoldable pub delete_hash : ℕ → List (ℕ × V) → List (ℕ × V)
  delete_hash hash [] = []
  delete_hash hash ((h, v) ∷ rest) =
      if eqb h hash then delete_hash hash rest else (h, v) ∷ delete_hash hash rest

-- `createSignedEvent` up to its wait, after the signer gave its pubkey.
unfoldable pub ask_at :
    SigningRequest → Option Event → Option SigningRequest → Signing → Answer × Signing
unfolding set_hash hash_event_request
ask_at r (some e) pending s = (cached e, s)
ask_at r none (some first) s = (shared first, s)
ask_at r none none s = (
  started,
  record s { inflight_requests = set_hash (hash_event_request r) r s.inflight_requests },
)

unfoldable pub create_signed_event : SigningRequest → Signing → Answer × Signing
unfolding ask_at find_hash hash_event_request
create_signed_event r s =
    ask_at r (find_hash (hash_event_request r) s.signed_event_cache)
      (find_hash (hash_event_request r) s.inflight_requests) s

-- The signature arrives, or `none` where the signer threw or timed out.
unfoldable pub on_signed : SigningRequest → Option Event → Signing → Signing
unfolding set_hash delete_hash hash_event_request
on_signed r none s = record s {
  inflight_requests = delete_hash (hash_event_request r) s.inflight_requests;
}
on_signed r (some e) s = record s {
  signed_event_cache = set_hash (hash_event_request r) e s.signed_event_cache;
  cleanup_timers = hash_event_request r ∷ s.cleanup_timers;
  inflight_requests = delete_hash (hash_event_request r) s.inflight_requests;
}

-- The cleanup timer, ten seconds after a signature.
unfoldable pub on_cleanup : ℕ → Signing → Signing
unfolding delete_hash
on_cleanup hash s = record s { signed_event_cache = delete_hash hash s.signed_event_cache }

-- `performSigning`: the template that the signer gets.
pub record EventTemplate : Type 0 where
  pub kind : ℕ
  pub content : String
  pub tags : List (List String)
  pub created_at : ℕ

unfoldable pub template : ℕ → Option String → SigningRequest → EventTemplate
template now_ms none r = record {
  kind = r.kind;
  content = r.content;
  tags = r.tags;
  created_at = now_ms / 1000;
}
template now_ms (some name) r = record {
  kind = r.kind;
  content = r.content;
  tags = if name == "" then r.tags else r.tags ++ ("client" ∷ name ∷ []) ∷ [];
  created_at = now_ms / 1000;
}
