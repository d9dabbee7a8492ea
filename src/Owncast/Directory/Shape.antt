-- ===== src/Owncast/Directory/Shape.antt =====
-- directory.client.ts: that the live set has each instance once, with its raw object, and what the
-- fingerprint can show.
use mathlib.Core.List.{map-append}
use livelier.Base.{
  ℕ, String, Bool, true, false, ◌≡◌, refl, none, some, List, [], ◌∷◌, ◌++◌, map, arith, ap, ◌∙◌,
  if-cases,
}
use livelier.Base.Dict.{Dict, has, lookup-insert}
use livelier.Base.Keys.{mem, Distinct, append-Distinct}
use livelier.Owncast.Directory.{
  Value, RawInstance, DirectorySection, Parse, coerce_instance, is_valid_instance, add_instance,
  parse_instances, parse_sections, parse_directory,
}
use livelier.Owncast.Directory.Laws.{key_of, add_instance-cases, mem-live_append}

module _ (is_web_url : String → Bool) (normalize_instance_url : String → String) where
  record IsSound (p : Parse) : Type 0 where
    distinct : Distinct (map (key_of is_web_url normalize_instance_url) p.live)
    in_seen :
        (k : String)
        → mem k (map (key_of is_web_url normalize_instance_url) p.live) ≡ true
        → has k p.seen ≡ true
    raw : map coerce_instance p.raw_live ≡ p.live

  add_instance-IsSound :
      (online : Bool) (raw : Dict Value) (p : Parse)
      → IsSound p
      → IsSound (add_instance is_web_url normalize_instance_url online raw (coerce_instance raw) p)
  add_instance-IsSound online raw p s =
      let i = coerce_instance raw in
      let key = key_of is_web_url normalize_instance_url in
      add_instance-cases is_web_url normalize_instance_url IsSound online raw i p
        (λ known. record { distinct = s.distinct; in_seen = s.in_seen; raw = s.raw })
        (λ new on. record {
          distinct =
              rw (map-append key p.live (i ∷ []))
                (append-Distinct (key i) (map key p.live) (absent new) s.distinct);
          in_seen = λ k m. ground (
            arith,
            m,
            s.in_seen k,
            mem-live_append is_web_url normalize_instance_url k p.live i,
            lookup-insert (key i) k i p.seen,
          );
          raw = map-append coerce_instance p.raw_live (raw ∷ []) ∙ ap (λ l. l ++ i ∷ []) s.raw;
        })
        (λ new off. record {
          distinct = s.distinct;
          in_seen = λ k m. ground (arith, s.in_seen k m, lookup-insert (key i) k i p.seen);
          raw = s.raw;
        })
    where
      absent :
          has (key_of is_web_url normalize_instance_url (coerce_instance raw)) p.seen ≡ false
          → mem
              (key_of is_web_url normalize_instance_url (coerce_instance raw))
              (map (key_of is_web_url normalize_instance_url) p.live)
            ≡ false
      absent new =
          ground
            (arith, new, s.in_seen (key_of is_web_url normalize_instance_url (coerce_instance raw)))

  parse_instances-IsSound :
      (online : Bool) (rs : List RawInstance) (p : Parse)
      → IsSound p
      → IsSound (parse_instances is_web_url normalize_instance_url online rs p)
  unfolding parse_instances
  parse_instances-IsSound online [] p s = s
  parse_instances-IsSound online (none ∷ rest) p s = parse_instances-IsSound online rest p s
  parse_instances-IsSound online (some raw ∷ rest) p s = parse_instances-IsSound online rest _ (
      if-cases IsSound (is_valid_instance is_web_url normalize_instance_url raw)
        (λ _. add_instance-IsSound online raw p s) (λ _. s))

  parse_sections-IsSound :
      (ss : List DirectorySection) (p : Parse)
      → IsSound p
      → IsSound (parse_sections is_web_url normalize_instance_url ss p)
  unfolding parse_sections
  parse_sections-IsSound [] p s = s
  parse_sections-IsSound (section ∷ rest) p s =
      parse_sections-IsSound rest _ (parse_instances-IsSound section.online section.instances p s)

  -- The live set of a feed has each instance once, by its normalized address, and each with the object
  -- that it was made from.
  pub parse_directory-Distinct :
      (sections : List DirectorySection) (now : ℕ)
      → Distinct (
          map
            (key_of is_web_url normalize_instance_url)
            (parse_directory is_web_url normalize_instance_url sections now).live)
        × (map coerce_instance
              (parse_directory is_web_url normalize_instance_url sections now).raw_live
            ≡ (parse_directory is_web_url normalize_instance_url sections now).live)
  unfolding parse_directory mem
  parse_directory-Distinct sections now =
      let s =
        parse_sections-IsSound sections
          record { seen = []; live = []; raw_live = []; first_valid = none }
          record { distinct = tt; in_seen = λ k m. absurd (ground (arith, m)); raw = refl } in
      (s.distinct, s.raw)
