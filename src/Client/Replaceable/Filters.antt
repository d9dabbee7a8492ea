-- ===== src/Client/Replaceable/Filters.antt =====
-- client.service.ts: which events the filters of a batch ask for. A relay answers a filter with the
-- events that `matches` it (NIP-01).
use livelier.Base.{
  ℕ, String, Bool, true, false, not, ◌&&◌, ◌||◌, ◌≡◌, refl, Option, none, some, is_some, List, [],
  ◌∷◌, ◌++◌, map, length, any, ltb, eqb, ◌==◌, if◌then◌else◌, arith, ap, Bool-cases, Option-cases,
  inl, inr, ◌∙◌,
}
use livelier.Base.Keys.{mem, mem-add, add}
use livelier.Client.Replaceable.{
  Event, ReplaceableEventRequest, Group, Filter, d_tag, is_addressable_kind, join_group,
  add_request, group_requests, filter_of, build_batch_filters, add_d,
}

-- `#d` of a filter, against the `d` tag of an event.
abbrev pub admits_d : Option (List String) → Option String → Bool
admits_d none d = true
admits_d (some ds) none = false
admits_d (some ds) (some d) = mem d ds

abbrev pub has_kind : ℕ → List ℕ → Bool
has_kind kind ks = any (λ k. eqb k kind) ks

abbrev pub matches : Event → Filter → Bool
matches e f = has_kind e.kind f.kinds && mem e.pubkey f.authors && admits_d f.d (d_tag e.tags)

-- The authors and the `d` values that a list of requests names for a kind.
abbrev pub asks_author : ℕ → String → List ReplaceableEventRequest → Bool
asks_author kind p [] = false
asks_author kind p (r ∷ rs) = (eqb r.kind kind && r.pubkey == p) || asks_author kind p rs

abbrev pub names_d : ℕ → Option String → Option String
names_d kind none = none
names_d kind (some d) = if is_addressable_kind kind && not (d == "") then some d else none

abbrev pub is_text : String → Option String → Bool
is_text d none = false
is_text d (some x) = x == d

abbrev pub asks_d : ℕ → String → List ReplaceableEventRequest → Bool
asks_d kind d [] = false
asks_d kind d (r ∷ rs) = (eqb r.kind kind && is_text d (names_d r.kind r.d)) || asks_d kind d rs

abbrev pub asks_some_d : ℕ → List ReplaceableEventRequest → Bool
asks_some_d kind [] = false
asks_some_d kind (r ∷ rs) = (eqb r.kind kind && is_some (names_d r.kind r.d)) || asks_some_d kind rs

-- What the groups hold for a kind; the first group of a kind is its only one.
group_at : ℕ → List Group → Option Group
group_at kind [] = none
group_at kind (g ∷ gs) = if eqb g.kind kind then some g else group_at kind gs

authors_at : Option Group → List String
authors_at none = []
authors_at (some g) = g.authors

ds_at : Option Group → List String
ds_at none = []
ds_at (some g) = g.ds

mem-add_d :
    (kind : ℕ) (o : Option String) (d : String) (ds : List String)
    → mem d (add_d kind o ds) ≡ (is_text d (names_d kind o) || mem d ds)
unfolding add_d
mem-add_d kind none d ds = refl
mem-add_d kind (some x) d ds = ground (arith, mem-add x d ds)

is_empty : List String → Bool
is_empty [] = true
is_empty (_ ∷ _) = false

is_empty-append : (d : String) (ds : List String) → is_empty (ds ++ d ∷ []) ≡ false
unfolding is_empty
is_empty-append d [] = refl
is_empty-append d (_ ∷ _) = refl

is_empty-add : (d : String) (ds : List String) → is_empty (add d ds) ≡ false
unfolding add is_empty mem
is_empty-add d [] = refl
is_empty-add d (x ∷ xs) = ground arith

is_empty-add_d :
    (kind : ℕ) (o : Option String) (ds : List String)
    → is_empty (add_d kind o ds) ≡ (not (is_some (names_d kind o)) && is_empty ds)
unfolding add_d
is_empty-add_d kind none ds = refl
is_empty-add_d kind (some x) ds = ground (arith, is_empty-add x ds)

-- What a request adds to the group of its kind.
module _ (r : ReplaceableEventRequest) (kind : ℕ) where
  authors_at-add_request :
      (p : String) (gs : List Group)
      → mem p (authors_at (group_at kind (add_request r gs)))
        ≡ ((eqb r.kind kind && r.pubkey == p) || mem p (authors_at (group_at kind gs)))
  unfolding add_request group_at authors_at join_group mem
  authors_at-add_request p [] = ground (arith, mem-add r.pubkey p [])
  authors_at-add_request p (g ∷ gs) =
      ground (arith, mem-add r.pubkey p g.authors, authors_at-add_request p gs)

  ds_at-add_request :
      (d : String) (gs : List Group)
      → mem d (ds_at (group_at kind (add_request r gs)))
        ≡ ((eqb r.kind kind && is_text d (names_d r.kind r.d)) || mem d (ds_at (group_at kind gs)))
  unfolding add_request group_at ds_at join_group mem
  ds_at-add_request d [] = ground (arith, mem-add_d r.kind r.d d [])
  ds_at-add_request d (g ∷ gs) = ground (arith, mem-add_d r.kind r.d d g.ds, ds_at-add_request d gs)

  is_empty-add_request :
      (gs : List Group)
      → is_empty (ds_at (group_at kind (add_request r gs))) ≡ (
          not (eqb r.kind kind && is_some (names_d r.kind r.d))
          && is_empty (ds_at (group_at kind gs)))
  unfolding add_request group_at ds_at join_group is_empty
  is_empty-add_request [] = ground (arith, is_empty-add_d r.kind r.d [])
  is_empty-add_request (g ∷ gs) =
      ground (arith, is_empty-add_d r.kind r.d g.ds, is_empty-add_request gs)

  group_at-add_request :
      (gs : List Group)
      → is_some (group_at kind (add_request r gs)) ≡ (eqb r.kind kind || is_some (group_at kind gs))
  unfolding add_request group_at join_group
  group_at-add_request [] = ground arith
  group_at-add_request (g ∷ gs) = ground (arith, group_at-add_request gs)

module _ (kind : ℕ) where
  authors_at-group_requests :
      (p : String) (rs : List ReplaceableEventRequest) (gs : List Group)
      → mem p (authors_at (group_at kind (group_requests rs gs)))
        ≡ (asks_author kind p rs || mem p (authors_at (group_at kind gs)))
  unfolding group_requests
  authors_at-group_requests p [] gs = refl
  authors_at-group_requests p (r ∷ rs) gs =
      ground (
        arith,
        authors_at-group_requests p rs (add_request r gs),
        authors_at-add_request r kind p gs,
      )

  ds_at-group_requests :
      (d : String) (rs : List ReplaceableEventRequest) (gs : List Group)
      → mem d (ds_at (group_at kind (group_requests rs gs)))
        ≡ (asks_d kind d rs || mem d (ds_at (group_at kind gs)))
  unfolding group_requests
  ds_at-group_requests d [] gs = refl
  ds_at-group_requests d (r ∷ rs) gs =
      ground (arith, ds_at-group_requests d rs (add_request r gs), ds_at-add_request r kind d gs)

  is_empty-group_requests :
      (rs : List ReplaceableEventRequest) (gs : List Group)
      → is_empty (ds_at (group_at kind (group_requests rs gs)))
        ≡ (not (asks_some_d kind rs) && is_empty (ds_at (group_at kind gs)))
  unfolding group_requests
  is_empty-group_requests [] gs = refl
  is_empty-group_requests (r ∷ rs) gs =
      ground (arith, is_empty-group_requests rs (add_request r gs), is_empty-add_request r kind gs)

-- Each kind has one group.
abbrev OneEach : List Group → Type 0
OneEach [] = Unit
OneEach (g ∷ gs) = (group_at g.kind gs ≡ none) × OneEach gs

add_request-OneEach :
    (r : ReplaceableEventRequest) (gs : List Group) → OneEach gs → OneEach (add_request r gs)
unfolding add_request group_at join_group
add_request-OneEach r [] h = (refl, tt)
add_request-OneEach r (g ∷ gs) h =
    ground (arith, group_at-add_request r g.kind gs, add_request-OneEach r gs h.1)

group_requests-OneEach :
    (rs : List ReplaceableEventRequest) (gs : List Group)
    → OneEach gs
    → OneEach (group_requests rs gs)
unfolding group_requests
group_requests-OneEach [] gs h = h
group_requests-OneEach (r ∷ rs) gs h =
    group_requests-OneEach rs (add_request r gs) (add_request-OneEach r gs h)

-- With one group for each kind, what matches a filter at all matches that of its own kind.
abbrev admitted : Event → List String → Bool
admitted e ds = is_empty ds || elim (d_tag e.tags) [ none ↦ false | some d ↦ mem d ds ]

admits_d-group :
    (ds : List String) (o : Option String)
    → admits_d (if ltb 0 (length ds) then some ds else none) o
      ≡ (is_empty ds || elim o [ none ↦ false | some d ↦ mem d ds ])
unfolding is_empty
admits_d-group [] o = refl
admits_d-group (x ∷ xs) none = ground arith
admits_d-group (x ∷ xs) (some d) = ground arith

matches-filter_of :
    (e : Event) (g : Group)
    → matches e (filter_of g) ≡ (eqb g.kind e.kind && mem e.pubkey g.authors && admitted e g.ds)
unfolding filter_of
matches-filter_of e g = ground (arith, admits_d-group g.ds (d_tag e.tags))

any-matches :
    (e : Event) (gs : List Group)
    → OneEach gs
    → any (matches e) (map filter_of gs)
      ≡ (mem e.pubkey (authors_at (group_at e.kind gs)) && admitted e (ds_at (group_at e.kind gs)))
unfolding group_at authors_at ds_at mem
any-matches e [] h = refl
any-matches e (g ∷ gs) (h, hs) = elim (Bool-cases (eqb g.kind e.kind)) [
  | inl y ↦ ground (
    arith,
    y,
    matches-filter_of e g,
    any-matches e gs hs,
    ap (λ k. group_at k gs) (let k : g.kind ≡ e.kind = ground (arith, y) in k),
    h,
  )
  | inr n ↦ ground (arith, n, matches-filter_of e g, any-matches e gs hs)
]

-- The relays are asked for an event exactly if some request of its kind names its author, and, where
-- some request of that kind names a `d` value, some request of the kind names the event's own.
pub build_batch_filters-matches :
    (rs : List ReplaceableEventRequest) (e : Event)
    → any (matches e) (build_batch_filters rs) ≡ (
        asks_author e.kind e.pubkey rs
        && (not (asks_some_d e.kind rs)
            || elim (d_tag e.tags) [ none ↦ false | some d ↦ asks_d e.kind d rs ]))
unfolding build_batch_filters group_at authors_at ds_at is_empty mem
build_batch_filters-matches rs e =
    let gs = group_requests rs [] in
    any-matches e gs (group_requests-OneEach rs [] tt) ∙ (elim (Option-cases (d_tag e.tags)) [
      | inl absent ↦ rw absent (
          ground (
            arith,
            authors_at-group_requests e.kind e.pubkey rs [],
            is_empty-group_requests e.kind rs [],
          ))
      | inr (d, known) ↦ rw known (
          ground (
            arith,
            authors_at-group_requests e.kind e.pubkey rs [],
            is_empty-group_requests e.kind rs [],
            ds_at-group_requests e.kind d rs [],
          ))
    ])
