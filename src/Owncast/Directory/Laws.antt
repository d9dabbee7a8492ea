-- ===== src/Owncast/Directory/Laws.antt =====
-- directory.client.ts: which instances of a feed are taken for live, and what the fingerprint shows.
use mathlib.Core.List.{map-append}
use livelier.Base.{
  ℕ, String, Bool, true, false, ◌&&◌, ◌||◌, ◌≡◌, refl, Option, none, some, is_some, List, [], ◌∷◌,
  ◌++◌, map, ◌==◌, if◌then◌else◌, arith, ap, sym, ◌∙◌, if-cases, eq_iff,
}
use livelier.Base.Dict.{Dict, lookup, insert, has, lookup-insert}
use livelier.Base.Keys.{mem, mem-append}
use livelier.Owncast.Directory.{
  Value, RawInstance, DirectorySection, DirectoryInstance, Parse, coerce_instance,
  is_valid_instance, add_instance, parse_instances, parse_sections, parse_directory, first_of,
}

-- An entry of the feed: whether its section is online, and the instance.
abbrev pub Entry : Type 0
Entry = Option (Bool × DirectoryInstance)

abbrev pub or_later : Entry → Entry → Entry
or_later none f = f
or_later (some e) f = some e

-- What a parse holds of a key: the instance, and whether it is in the live set.
abbrev View : Type 0
View = Option DirectoryInstance × Bool

abbrev absorb : Entry → View → View
absorb none v = v
absorb (some (online, i)) (some x, b) = (some x, b)
absorb (some (online, i)) (none, b) = (some i, online || b)

absorb-or_later : (e f : Entry) (v : View) → absorb (or_later e f) v ≡ absorb f (absorb e v)
absorb-or_later none f v = refl
absorb-or_later (some e) none v = refl
absorb-or_later (some (on, i)) (some (on', i')) (some x, b) = refl
absorb-or_later (some (on, i)) (some (on', i')) (none, b) = refl

-- An entry of a key that is known, and one of a key that is new.
absorb_known :
    (c online b : Bool) (i : DirectoryInstance) (o : Option DirectoryInstance)
    → (c ≡ true → is_some o ≡ true)
    → (o, b) ≡ absorb (if c then some (online, i) else none) (o, b)
absorb_known false online b i o h = refl
absorb_known true online b i (some x) h = refl
absorb_known true online b i none h = absurd (ground (arith, h refl))

absorb_new :
    (c online b : Bool) (i : DirectoryInstance) (o : Option DirectoryInstance)
    → (c ≡ true → is_some o ≡ false)
    → ((if c then some i else o), b || online && c)
      ≡ absorb (if c then some (online, i) else none) (o, b)
absorb_new false online b i o h = ap (λ x. (o, x)) (ground arith)
absorb_new true online b i none h = ap (λ x. (some i, x)) (ground arith)
absorb_new true online b i (some x) h = absurd (ground (arith, h refl))

module _ (is_web_url : String → Bool) (normalize_instance_url : String → String) where
  abbrev pub key_of : DirectoryInstance → String
  key_of i = normalize_instance_url i.url

  -- The first valid entry of a key in a section, and in the feed.
  abbrev pub first_in : String → Bool → List RawInstance → Entry
  first_in k online [] = none
  first_in k online (none ∷ rest) = first_in k online rest
  first_in k online (some raw ∷ rest) =
      or_later
        (if is_valid_instance is_web_url normalize_instance_url raw
            && key_of (coerce_instance raw) == k
          then some (online, coerce_instance raw)
          else none)
        (first_in k online rest)

  abbrev pub first_listing : String → List DirectorySection → Entry
  first_listing k [] = none
  first_listing k (s ∷ rest) = or_later (first_in k s.online s.instances) (first_listing k rest)

  view : String → Parse → View
  view k p = (lookup k p.seen, mem k (map key_of p.live))

  -- The three ways of a valid entry.
  pub add_instance-cases :
      (P : Parse → Type 0) (online : Bool) (raw : Dict Value) (i : DirectoryInstance) (p : Parse)
      → ((has (key_of i) p.seen ≡ true)
          → P (record p { first_valid = some (first_of p.first_valid i) }))
      → ((has (key_of i) p.seen ≡ false)
          → (online ≡ true)
          → P record {
            seen = insert (key_of i) i p.seen;
            live = p.live ++ i ∷ [];
            raw_live = p.raw_live ++ raw ∷ [];
            first_valid = some (first_of p.first_valid i);
          })
      → ((has (key_of i) p.seen ≡ false)
          → (online ≡ false)
          → P (record p {
            seen = insert (key_of i) i p.seen;
            first_valid = some (first_of p.first_valid i);
          }))
      → P (add_instance is_web_url normalize_instance_url online raw i p)
  unfolding add_instance
  add_instance-cases P online raw i p known fresh offline =
      if-cases P (has (key_of i) p.seen) known
        (λ new. if-cases P online (λ y. fresh new y) (λ n. offline new n))

  pub mem-live_append :
      (k : String) (live : List DirectoryInstance) (i : DirectoryInstance)
      → mem k (map key_of (live ++ i ∷ [])) ≡ (mem k (map key_of live) || key_of i == k)
  unfolding mem
  mem-live_append k live i =
      rw (map-append key_of live (i ∷ []), mem-append k (map key_of live) (key_of i ∷ []))
        (ground arith)

  add_instance-view :
      (k : String) (online : Bool) (raw : Dict Value) (i : DirectoryInstance) (p : Parse)
      → view k (add_instance is_web_url normalize_instance_url online raw i p)
        ≡ absorb (if key_of i == k then some (online, i) else none) (view k p)
  unfolding view
  add_instance-view k online raw i p =
      let o = lookup k p.seen in
      let b = mem k (map key_of p.live) in
      add_instance-cases
        (λ q. view k q ≡ absorb (if key_of i == k then some (online, i) else none) (view k p))
        online raw i p (λ known. absorb_known (key_of i == k) online b i o (λ y. at y ∙ known))
        (λ new on.
          rw (lookup-insert (key_of i) k i p.seen, mem-live_append k p.live i)
            (ap (λ x. ((if key_of i == k then some i else o), x)) (ground (arith, on))
              ∙ absorb_new (key_of i == k) online b i o (λ y. at y ∙ new)))
        (λ new off. rw (lookup-insert (key_of i) k i p.seen) (
          ap (λ x. ((if key_of i == k then some i else o), x)) (ground (arith, off))
          ∙ absorb_new (key_of i == k) online b i o (λ y. at y ∙ new)))
    where
      at : (key_of i == k) ≡ true → is_some (lookup k p.seen) ≡ has (key_of i) p.seen
      at y = ap (λ j. has j p.seen) (sym ((eq_iff (key_of i) k).0 y))

  parse_instances-view :
      (k : String) (online : Bool) (rs : List RawInstance) (p : Parse)
      → view k (parse_instances is_web_url normalize_instance_url online rs p)
        ≡ absorb (first_in k online rs) (view k p)
  unfolding parse_instances
  parse_instances-view k online [] p = refl
  parse_instances-view k online (none ∷ rest) p = parse_instances-view k online rest p
  parse_instances-view k online (some raw ∷ rest) p =
      parse_instances-view k online rest _
      ∙ ap (absorb (first_in k online rest))
          (entered (is_valid_instance is_web_url normalize_instance_url raw))
      ∙ sym (absorb-or_later _ (first_in k online rest) (view k p))
    where
      i : DirectoryInstance
      i = coerce_instance raw

      entered :
          (valid : Bool)
          → view k
              (if valid then add_instance is_web_url normalize_instance_url online raw i p else p)
            ≡ absorb (if valid && key_of i == k then some (online, i) else none) (view k p)
      entered true = add_instance-view k online raw i p
      entered false = refl

  parse_sections-view :
      (k : String) (ss : List DirectorySection) (p : Parse)
      → view k (parse_sections is_web_url normalize_instance_url ss p)
        ≡ absorb (first_listing k ss) (view k p)
  unfolding parse_sections
  parse_sections-view k [] p = refl
  parse_sections-view k (s ∷ rest) p =
      parse_sections-view k rest _
      ∙ ap (absorb (first_listing k rest)) (parse_instances-view k s.online s.instances p)
      ∙ sym (absorb-or_later (first_in k s.online s.instances) (first_listing k rest) (view k p))

  -- The instance of a key in a feed is that of its first valid entry; it is in the live set exactly if
  -- that entry stands in an online section, whatever sections list it later.
  pub parse_directory-first :
      (sections : List DirectorySection) (now : ℕ) (k : String)
      → (lookup k (parse_directory is_web_url normalize_instance_url sections now).all
          ≡ elim (first_listing k sections) [ none ↦ none | some e ↦ some e.1 ])
        × (mem k (map key_of (parse_directory is_web_url normalize_instance_url sections now).live)
            ≡ elim (first_listing k sections) [ none ↦ false | some e ↦ e.0 ])
  unfolding parse_directory view lookup mem
  parse_directory-first sections now k =
      let seen = parse_sections-view k sections start ∙ started (first_listing k sections) in
      (ap (λ v. v.0) seen, ap (λ v. v.1) seen)
    where
      start : Parse
      start = record { seen = []; live = []; raw_live = []; first_valid = none }

      started :
          (e : Entry)
          → absorb e (view k start)
            ≡ (elim e [ none ↦ none | some x ↦ some x.1 ], elim e [ none ↦ false | some x ↦ x.0 ])
      started none = refl
      started (some (online, i)) = ap (λ x. (some i, x)) (ground arith)
