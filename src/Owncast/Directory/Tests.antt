-- ===== src/Owncast/Directory/Tests.antt =====
-- A directory feed that lists a live instance first in an offline section.
use livelier.Base.{String, Bool, true, false, ◌≡◌, none, some, List, [], ◌∷◌}
use livelier.Base.Dict.{Dict}
use livelier.Base.Keys.{mem, Distinct}
use livelier.Owncast.Directory.{Value, text, DirectorySection}
use livelier.Owncast.Directory.Laws.{first_listing}
use livelier.Owncast.Adapter.{fetch_live}
use livelier.Owncast.Adapter.Laws.{live_keys, fetch_live-first}

abbrev instance_at : String → Dict Value
instance_at url = ("url", text url) ∷ ("motd", text "hello") ∷ []

abbrev sections : List DirectorySection
sections =
    record { online = false; instances = some (instance_at "https://a") ∷ none ∷ [] }
    ∷ record {
      online = true;
      instances = some (instance_at "https://a") ∷ some (instance_at "https://b") ∷ [];
    }
    ∷ []

abbrev takes : String → Bool
takes url = true

abbrev same : String → String
same url = url

fetch_live-first_example :
    Distinct (live_keys takes same (λ _. none) (fetch_live takes same (λ _. none) sections 7).live)
    × (mem "https://a"
          (live_keys takes same (λ _. none) (fetch_live takes same (λ _. none) sections 7).live)
        ≡ elim (first_listing takes same "https://a" sections) [ none ↦ false | some e ↦ e.0 ])
fetch_live-first_example = fetch_live-first takes same (λ _. none) sections 7 "https://a"
