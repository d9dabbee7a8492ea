-- ===== src/Owncast/Directory.antt =====
-- packages/bridge/src/sources/owncast/discovery/directory.client.ts: the parse of a directory feed. A
-- member of an instance is a text, a flag, a number, a list of tags, or anything else. Of the URL
-- parser, `is_web_url` says that it takes an address, with the scheme http or https, and
-- `normalize_instance_url` is the function of bridge-key.ts, which rests on that parser.
pub mod Laws
pub mod Shape
mod Tests
use livelier.Base.{
  ℕ, String, Bool, true, false, not, ◌&&◌, Option, none, some, is_some, List, [], ◌∷◌, ◌++◌, keep,
  length, ltb, ◌==◌, if◌then◌else◌,
}
use livelier.Base.Dict.{Dict, lookup, insert, has}
use livelier.Base.Keys.{mem}
use livelier.Base.Text.{cat, decimal}

pub record DirectoryTag : Type 0 where
  pub name : String
  pub slug : String

pub data Value : Type 0 where
  text : String → Value
  flag : Bool → Value
  num : ℕ → Value
  tag_list : List DirectoryTag → Value
  anything : Value

-- An entry of a section: the members of an object, or `none` for what is no object.
abbrev pub RawInstance : Type 0
RawInstance = Option (Dict Value)

-- `section?.online === true`, and the instances, none where they are no array.
pub record DirectorySection : Type 0 where
  pub online : Bool
  pub instances : List RawInstance

-- The `id` is -1 where there was none, here `none`.
pub record DirectoryInstance : Type 0 where
  pub id : Option ℕ
  pub name : String
  pub description : String
  pub stream_title : String
  pub url : String
  pub logo : String
  pub tags : List DirectoryTag
  pub nsfw : Bool
  pub last_seen : String
  pub streaming_since : String

abbrev pub expected_instance_fields : List String
expected_instance_fields =
    "id" ∷ "name" ∷ "description" ∷ "streamTitle" ∷ "url" ∷ "logo" ∷ "tags" ∷ "nsfw" ∷ "lastSeen"
    ∷ "streamingSince" ∷ []

-- `typeof v === 'string' ? v : ''`
unfoldable pub text_or_empty : Option Value → String
text_or_empty (some (text s)) = s
text_or_empty _ = ""

unfoldable pub tags_or_empty : Option Value → List DirectoryTag
tags_or_empty (some (tag_list ts)) = ts
tags_or_empty _ = []

unfoldable pub is_true : Option Value → Bool
is_true (some (flag b)) = b
is_true _ = false

unfoldable pub number_of : Option Value → Option ℕ
number_of (some (num n)) = some n
number_of _ = none

unfoldable pub coerce_instance : Dict Value → DirectoryInstance
unfolding text_or_empty tags_or_empty is_true number_of lookup
coerce_instance raw = record {
  id = number_of (lookup "id" raw);
  name = text_or_empty (lookup "name" raw);
  description = text_or_empty (lookup "description" raw);
  stream_title = text_or_empty (lookup "streamTitle" raw);
  url = text_or_empty (lookup "url" raw);
  logo = text_or_empty (lookup "logo" raw);
  tags = tags_or_empty (lookup "tags" raw);
  nsfw = is_true (lookup "nsfw" raw);
  last_seen = text_or_empty (lookup "lastSeen" raw);
  streaming_since = text_or_empty (lookup "streamingSince" raw);
}

-- `Object.keys(instance).sort()`, of an object that `coerceInstance` made.
unfoldable pub keys_of_instance : DirectoryInstance → List String
keys_of_instance i =
    "description" ∷ "id" ∷ "lastSeen" ∷ "logo" ∷ "name" ∷ "nsfw" ∷ "streamTitle" ∷ "streamingSince"
    ∷ "tags" ∷ "url" ∷ []

-- `xs.join(',')`
unfoldable pub join_comma : List String → String
join_comma [] = ""
join_comma (x ∷ []) = x
join_comma (x ∷ xs) = cat x (cat "," (join_comma xs))

unfoldable pub extra_part : List String → String
unfolding join_comma
extra_part [] = ""
extra_part (x ∷ xs) = cat "+extra:" (join_comma (x ∷ xs))

unfoldable pub schema_fingerprint : Option DirectoryInstance → String
unfolding extra_part keys_of_instance decimal mem
schema_fingerprint none = "empty"
schema_fingerprint (some instance) =
    let keys = keys_of_instance instance in
    let known = keep (λ f. mem f keys) expected_instance_fields in
    let extra = keep (λ k. not (mem k expected_instance_fields)) keys in
    cat "known:" (
      cat (decimal (length known))
        (cat "/" (cat (decimal (length expected_instance_fields)) (extra_part extra))))

-- The variables of the loop.
pub record Parse : Type 0 where
  pub seen : Dict DirectoryInstance
  pub live : List DirectoryInstance
  pub raw_live : List (Dict Value)
  pub first_valid : Option DirectoryInstance

-- `firstValid ?? instance`
unfoldable pub first_of : Option DirectoryInstance → DirectoryInstance → DirectoryInstance
first_of none instance = instance
first_of (some i) instance = i

pub record ParsedDirectory : Type 0 where
  pub live : List DirectoryInstance
  pub raw_live : List (Dict Value)
  pub all : Dict DirectoryInstance
  pub fetched_at : ℕ
  pub schema_version : String

module _ (is_web_url : String → Bool) (normalize_instance_url : String → String) where
  unfoldable pub is_valid_instance : Dict Value → Bool
  unfolding text_or_empty lookup
  is_valid_instance raw =
      let url = text_or_empty (lookup "url" raw) in not (url == "") && is_web_url url

  unfoldable pub add_instance : Bool → Dict Value → DirectoryInstance → Parse → Parse
  unfolding first_of
  add_instance is_live raw instance p =
      let key = normalize_instance_url instance.url in
      let p1 = record p { first_valid = some (first_of p.first_valid instance) } in
      if has key p.seen
      then p1
      else if is_live
      then record p1 {
        seen = insert key instance p.seen;
        live = p.live ++ instance ∷ [];
        raw_live = p.raw_live ++ raw ∷ [];
      }
      else record p1 { seen = insert key instance p.seen }

  -- The inner loop over the instances of a section.
  unfoldable pub parse_instances : Bool → List RawInstance → Parse → Parse
  unfolding add_instance is_valid_instance coerce_instance
  parse_instances is_live [] p = p
  parse_instances is_live (none ∷ rest) p = parse_instances is_live rest p
  parse_instances is_live (some raw ∷ rest) p =
      parse_instances is_live rest
        (if is_valid_instance raw then add_instance is_live raw (coerce_instance raw) p else p)

  unfoldable pub parse_sections : List DirectorySection → Parse → Parse
  unfolding parse_instances
  parse_sections [] p = p
  parse_sections (s ∷ rest) p = parse_sections rest (parse_instances s.online s.instances p)

  unfoldable pub parse_directory : List DirectorySection → ℕ → ParsedDirectory
  unfolding parse_sections schema_fingerprint
  parse_directory sections fetched_at =
      let p =
        parse_sections sections
          record { seen = []; live = []; raw_live = []; first_valid = none } in
      record {
        live = p.live;
        raw_live = p.raw_live;
        all = p.seen;
        fetched_at = fetched_at;
        schema_version = schema_fingerprint p.first_valid;
      }
