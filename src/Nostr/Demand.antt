-- ===== src/Nostr/Demand.antt =====
-- packages/bridge/src/core/nostr/demand.client.ts: the rooms that somebody watches, by the relay's report
-- of its open subscriptions. The response is a parameter: `none` where fetch throws, or the JSON.
use livelier.Base.{
  ℕ, String, Bool, true, false, ◌&&◌, ◌||◌, ◌≡◌, refl, Option, none, some, List, [], ◌∷◌, any, ltb,
  ◌==◌, if◌then◌else◌, arith, ap, ◌∙◌,
}
use livelier.Base.Keys.{mem, add, mem-add}

-- `active`, where it is a number, and `filter['#a']`, where it is an array; a value that is no text is
-- `none`.
pub record DemandItem : Type 0 where
  pub active : Option ℕ
  pub a_values : Option (List (Option String))

pub record DemandResponse : Type 0 where
  pub ok : Bool
  pub demand : List DemandItem

-- `!(!item.active || item.active <= 0)`
unfoldable pub is_active : Option ℕ → Bool
is_active none = false
is_active (some n) = ltb 0 n

unfoldable pub add_values : List (Option String) → List String → List String
unfolding add
add_values [] a_tags = a_tags
add_values (none ∷ vs) a_tags = add_values vs a_tags
add_values (some v ∷ vs) a_tags = add_values vs (add v a_tags)

unfoldable pub add_array : Option (List (Option String)) → List String → List String
unfolding add_values
add_array none a_tags = a_tags
add_array (some vs) a_tags = add_values vs a_tags

unfoldable pub collect : List DemandItem → List String → List String
unfolding is_active add_array
collect [] a_tags = a_tags
collect (item ∷ items) a_tags =
    collect items (if is_active item.active then add_array item.a_values a_tags else a_tags)

-- `none` where it throws.
unfoldable pub fetch_demanded_a_tags : Option DemandResponse → Option (List String)
unfolding collect
fetch_demanded_a_tags none = none
fetch_demanded_a_tags (some r) = if r.ok then some (collect r.demand []) else none

-- That an open subscription names a room.
abbrev pub is_value : String → Option String → Bool
is_value a none = false
is_value a (some v) = v == a

abbrev pub watches : String → DemandItem → Bool
watches a item =
    is_active item.active && elim item.a_values [ none ↦ false | some vs ↦ any (is_value a) vs ]

mem-add_values :
    (a : String) (vs : List (Option String)) (s : List String)
    → mem a (add_values vs s) ≡ (any (is_value a) vs || mem a s)
unfolding add_values
mem-add_values a [] s = refl
mem-add_values a (none ∷ vs) s = mem-add_values a vs s
mem-add_values a (some v ∷ vs) s = ground (arith, mem-add_values a vs (add v s), mem-add v a s)

mem-add_array :
    (a : String) (o : Option (List (Option String))) (s : List String)
    → mem a (add_array o s) ≡ (elim o [ none ↦ false | some vs ↦ any (is_value a) vs ] || mem a s)
unfolding add_array
mem-add_array a none s = refl
mem-add_array a (some vs) s = mem-add_values a vs s

mem-collect :
    (a : String) (items : List DemandItem) (s : List String)
    → mem a (collect items s) ≡ (any (watches a) items || mem a s)
unfolding collect
mem-collect a [] s = refl
mem-collect a (item ∷ items) s = ground (
  arith,
  mem-collect a items (if is_active item.active then add_array item.a_values s else s),
  mem-add_array a item.a_values s,
)

-- A room is in demand exactly if some open subscription names it in its `#a`: the bridge's own
-- firehose, which has none, calls for no room.
pub fetch_demanded_a_tags-watched :
    (demand : List DemandItem) (a_tags : List String) (a : String)
    → fetch_demanded_a_tags (some record { ok = true; demand = demand }) ≡ some a_tags
    → mem a a_tags ≡ any (watches a) demand
unfolding fetch_demanded_a_tags mem
fetch_demanded_a_tags-watched demand a_tags a h =
    ap (λ o. elim o [ none ↦ false | some s ↦ mem a s ]) h'
    ∙ ground (arith, mem-collect a demand [])
  where
    h' : some a_tags ≡ some (collect demand [])
    h' = ground (arith, h)
