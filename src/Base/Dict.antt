-- ===== src/Base/Dict.antt =====
-- A JavaScript `Map` with text keys, in insertion order: `set` on a key that is there keeps its
-- place, on a new key it appends. Keys are distinct, so that `erase` removes at most one entry.
use Prim.Native.Nat.{◌+◌, ◌≤◌}
use Prim.Native.String.{String}
use mathlib.Core.Path.{◌≡◌, refl, ap, subst}
use mathlib.Core.Bool.{Bool, true, not, ◌&&◌, ◌||◌}
use mathlib.Core.Option.{Option, none, some}
use mathlib.Core.List.{List, [], ◌∷◌, map}
use native.Mathlib.Omega.{arith}
use text.Mathlib.Text.{◌==◌}
use text.Mathlib.TextEquality.{eq_iff}
use livelier.Base.Tests.{if◌then◌else◌, if-cases, is_some, or_else}
use livelier.Base.Lists.{length, All}
use livelier.Base.Keys.{mem, count, count-Distinct, Distinct}

abbrev pub Dict {ℓ} : Type ℓ → Type ℓ
Dict V = List (String × V)

module _ {ℓ} {V : Type ℓ} where
  unfoldable pub lookup : String → Dict V → Option V
  lookup k [] = none
  lookup k ((j, v) ∷ m) = if j == k then some v else lookup k m

  pub lookup_nil : (k : String) → lookup k [] ≡ none
  unfolding lookup
  lookup_nil k = refl

  -- `m.has(k)`
  abbrev pub has : String → Dict V → Bool
  has k m = is_some (lookup k m)

  -- `m.set(k, v)`
  unfoldable pub insert : String → V → Dict V → Dict V
  insert key value [] = (key, value) ∷ []
  insert key value ((name, old) ∷ rest) =
      if name == key then (key, value) ∷ rest else (name, old) ∷ insert key value rest

  -- `m.delete(k)`
  unfoldable pub erase : String → Dict V → Dict V
  erase k [] = []
  erase k ((j, w) ∷ m) = if j == k then erase k m else (j, w) ∷ erase k m

  -- `m.keys()`
  abbrev pub keys : Dict V → List String
  keys = map (λ e. e.0)

  pub lookup-insert :
      (key other : String) (value : V) (entries : Dict V)
      → lookup other (insert key value entries)
        ≡ (if key == other then some value else lookup other entries)
  unfolding lookup insert
  lookup-insert key other value [] = refl
  lookup-insert key other value ((name, _) ∷ rest) = ground (
    arith,
    lookup-insert key other value rest,
    eq_iff name other,
    eq_iff name key,
    eq_iff key other,
  )

  pub lookup-erase :
      (k j : String) (m : Dict V) → lookup j (erase k m) ≡ (if k == j then none else lookup j m)
  unfolding lookup erase
  lookup-erase k j [] = ground arith
  lookup-erase k j ((i, w) ∷ m) =
      ground (arith, eq_iff k j, eq_iff i k, eq_iff i j, lookup-erase k j m)

  -- A new key makes the map longer by one, a known key does not.
  pub length-insert :
      (k : String) (v : V) (m : Dict V)
      → length (insert k v m) ≡ (if has k m then length m else length m + 1)
  unfolding lookup insert
  length-insert k v [] = omega arith
  length-insert k v ((i, w) ∷ m) = ground (arith, length-insert k v m)

  pub length-erase-le : (k : String) (m : Dict V) → length (erase k m) ≤ length m
  unfolding erase
  length-erase-le k [] = omega arith
  length-erase-le k ((i, w) ∷ m) = ground (arith, length-erase-le k m)

  pub mem-keys : (k : String) (m : Dict V) → mem k (keys m) ≡ has k m
  unfolding lookup mem
  mem-keys k [] = refl
  mem-keys k ((i, w) ∷ m) = ground (arith, mem-keys k m)

  pub mem-keys-insert :
      (k j : String) (v : V) (m : Dict V) → mem j (keys (insert k v m)) ≡ (k == j || mem j (keys m))
  mem-keys-insert k j v m =
      ground (arith, mem-keys j (insert k v m), mem-keys j m, lookup-insert k j v m)

  pub mem-keys-erase :
      (k j : String) (m : Dict V) → mem j (keys (erase k m)) ≡ (not (k == j) && mem j (keys m))
  mem-keys-erase k j m = ground (arith, mem-keys j (erase k m), mem-keys j m, lookup-erase k j m)

  -- The keys of a map stay distinct.
  pub insert-Distinct :
      (k : String) (v : V) (m : Dict V) → Distinct (keys m) → Distinct (keys (insert k v m))
  unfolding insert mem
  insert-Distinct k v [] d = (refl, tt)
  insert-Distinct k v ((i, w) ∷ m) d =
      ground (arith, eq_iff i k, eq_iff k i, mem-keys-insert k i v m, insert-Distinct k v m d.1)

  pub erase-Distinct : (k : String) (m : Dict V) → Distinct (keys m) → Distinct (keys (erase k m))
  unfolding erase
  erase-Distinct k [] d = tt
  erase-Distinct k ((i, w) ∷ m) d =
      ground (arith, eq_iff i k, eq_iff k i, mem-keys-erase k i m, erase-Distinct k m d.1)

  -- `erase` drops what stands under its key, and no other entry.
  pub length-erase : (k : String) (m : Dict V) → length (erase k m) + count k (keys m) ≡ length m
  unfolding erase count
  length-erase k [] = omega arith
  length-erase k ((j, v) ∷ m) = ground (arith, length-erase k m, eq_iff j k, eq_iff k j)

  pub length-erase-has :
      (k : String) (m : Dict V)
      → Distinct (keys m)
      → has k m ≡ true
      → length (erase k m) + 1 ≡ length m
  length-erase-has k m d h =
      ground (arith, length-erase k m, count-Distinct k (keys m) d, mem-keys k m)

module _ {ℓ κ} {V : Type ℓ} (P : String × V → Type κ) where
  -- A property of the entries, after `set`, and of an entry that is found.
  pub All-insert : (k : String) (v : V) (m : Dict V) → P (k, v) → All P m → All P (insert k v m)
  unfolding insert
  All-insert k v [] p h = (p, tt)
  All-insert k v ((i, w) ∷ m) p (q, h) =
      if-cases (All P) (i == k) (λ _. (p, h)) (λ _. (q, All-insert k v m p h))

module _ {ℓ κ} {V : Type ℓ} (P : V → Type κ) where
  pub All-lookup :
      (k : String) (m : Dict V) (v : V) → All (λ e. P e.1) m → lookup k m ≡ some v → P v
  unfolding lookup
  All-lookup k [] v h e = ground arith
  All-lookup k ((i, w) ∷ m) v (p, h) e =
      if-cases (λ (o : Option V). o ≡ some v → P v) (i == k)
        (λ _ f. subst P (ap (λ o. or_else o w) f) p) (λ _ f. All-lookup k m v h f) e
