-- ===== src/Client/Publish/Laws.antt =====
-- client.service.ts: where a publication goes, and which caches see it.
use livelier.Base.{
  ℕ, String, Bool, true, false, ◌&&◌, ◌||◌, ◌≡◌, refl, none, some, List, [], ◌∷◌, any, ◌==◌,
  if◌then◌else◌, arith, ap, sym, or_else, leb, length, not, ◌∙◌, eq_iff, eq_refl, Bool-cases,
  Option-cases, inl, inr,
}
use livelier.Base.Dict.{Dict, has, lookup, lookup-erase, lookup-insert}
use livelier.Base.Keys.{mem, dedupe, mem-dedupe, mem-append}
use livelier.Client.Lru.{LruCache, set, put, evict_lru}
use livelier.Client.Replaceable.{Event, coordinate}
use livelier.Client.Loader.{prime_ledger}
use livelier.Client.Verifier.{remember_verified}
use livelier.Client.Publish.{
  RelayTarget, missing, urls, relay_list, get_relay_urls, Caches, is_cacheable, publish_all,
  some_accepted, prime, publish_to, publish_event,
}

-- That the caller named a relay.
abbrev pub named : String → RelayTarget → Bool
named url missing = false
named url (urls xs) = mem url xs
named url (relay_list read write) = mem url read || mem url write

lookup-publish_all :
    (accepts : String → Bool) (url : String) (xs : List String)
    → lookup url (publish_all accepts xs) ≡ (if mem url xs then some (accepts url) else none)
unfolding publish_all lookup mem
lookup-publish_all accepts url [] = refl
lookup-publish_all accepts url (x ∷ xs) = elim (Bool-cases (x == url)) [
  | inl y ↦ ground (arith, y, ap accepts ((eq_iff x url).0 y))
  | inr n ↦ ground (arith, n, lookup-publish_all accepts url xs)
]

some_accepted-publish_all :
    (accepts : String → Bool) (xs : List String)
    → some_accepted (publish_all accepts xs) ≡ any accepts xs
unfolding some_accepted publish_all
some_accepted-publish_all accepts [] = refl
some_accepted-publish_all accepts (x ∷ xs) = ground (arith, some_accepted-publish_all accepts xs)

get_relay_urls-named :
    (target : RelayTarget) (relay_urls : List String) (url : String)
    → get_relay_urls target ≡ some relay_urls
    → mem url relay_urls ≡ named url target
unfolding get_relay_urls
get_relay_urls-named missing xs url h = absurd (ground (arith, h))
get_relay_urls-named (urls []) xs url h = absurd (ground (arith, h))
get_relay_urls-named (urls (y ∷ ys)) xs url h = ap (λ o. mem url (or_else o [])) (sym h)
get_relay_urls-named (relay_list read write) xs url h =
    ap (λ o. mem url (or_else o [])) (sym h) ∙ mem-append url read write

-- A publication that does not throw reports on the relays that its caller named, and on no other, for
-- each whether it accepted the event; without a named relay there is no result.
pub publish_event-named :
    (now : ℕ) (event : Event) (accepts : String → Bool) (target : RelayTarget) (c c' : Caches)
    (results : Dict Bool) (url : String)
    → publish_event now event accepts target c ≡ some (results, c')
    → lookup url results ≡ (if named url target then some (accepts url) else none)
unfolding publish_event publish_to
publish_event-named now event accepts target c c' results url h =
    elim (Option-cases (get_relay_urls target)) [
      | inl e ↦ absurd (ground (arith, e, h))
      | inr (xs, e) ↦
          let same : publish_all accepts (dedupe xs) ≡ results = ground (arith, e, h) in
          ap (lookup url) (sym same)
          ∙ lookup-publish_all accepts url (dedupe xs)
          ∙ ground (arith, mem-dedupe url xs, get_relay_urls-named target xs url e)
    ]

lookup-set :
    (now : ℕ) (k : String) (e : Event) (c : LruCache Event)
    → lookup k (set now k e c).cache ≡ some e
unfolding set put
lookup-set now k e c = ground (
  arith,
  eq_refl k,
  lookup-insert k k e
      (if leb c.capacity (length c.cache) && not (has k c.cache) then evict_lru c else c).cache,
)

-- The caches before and after a publication that some relay accepted, or none did.
abbrev pub Primes : Event → Caches → Caches → Bool → Type 0
Primes event before after true =
    (lookup (coordinate event) after.replaceable_cache.cache ≡ some event)
    × (lookup (coordinate event) after.miss_ledger ≡ none)
Primes event before after false =
    (after.replaceable_cache ≡ before.replaceable_cache) × (after.miss_ledger ≡ before.miss_ledger)

prime-Primes :
    (now : ℕ) (event : Event) (before c : Caches) → Primes event before (prime now event c) true
unfolding prime prime_ledger
prime-Primes now event before c = (
  lookup-set now (coordinate event) event c.replaceable_cache,
  ground (
    arith,
    eq_refl (coordinate event),
    lookup-erase (coordinate event) (coordinate event) c.miss_ledger,
  ),
)

-- A replaceable event of a cacheable kind that some relay accepted is what the next load of its
-- coordinate finds, with no miss in its way; one that no relay accepted leaves both as they were. Any
-- published event is found under its id.
pub publish_to-Primes :
    (now : ℕ) (event : Event) (accepts : String → Bool) (xs : List String) (c : Caches)
    → is_cacheable event.kind ≡ true
    → Primes event c (publish_to now event accepts xs c).1 (any accepts (dedupe xs))
      × (lookup event.id (publish_to now event accepts xs c).1.event_cache.cache ≡ some event)
unfolding publish_to prime
publish_to-Primes now event accepts xs c kind =
    let c1 = record c {
      verified_ids = remember_verified event.id c.verified_ids;
      event_cache = set now event.id event c.event_cache;
    } in
    elim (Bool-cases (any accepts (dedupe xs))) [
      | inl y ↦
          rw (kind, some_accepted-publish_all accepts (dedupe xs), y)
            (prime-Primes now event c c1, lookup-set now event.id event c.event_cache)
      | inr n ↦
          rw (kind, some_accepted-publish_all accepts (dedupe xs), n)
            ((refl, refl), lookup-set now event.id event c.event_cache)
    ]
