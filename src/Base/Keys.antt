-- ===== src/Base/Keys.antt =====
-- A JavaScript `Set` of texts, in insertion order, and lists of texts as sets.
use Prim.Native.Nat.{ℕ, ◌+◌}
use Prim.Native.String.{String}
use mathlib.Core.Path.{◌≡◌, refl, ap}
use mathlib.Core.Logic.{inl, inr}
use mathlib.Core.Bool.{Bool, false, not, ◌&&◌, ◌||◌}
use mathlib.Core.List.{List, [], ◌∷◌, ◌++◌}
use native.Mathlib.Omega.{arith}
use text.Mathlib.Text.{◌==◌}
use text.Mathlib.TextEquality.{eq_iff}
use livelier.Base.Tests.{if◌then◌else◌, if-cases, Bool-cases, ltb}
use livelier.Base.Lists.{All, keep}

-- `s.has(k)`
unfoldable pub mem : String → List String → Bool
mem k [] = false
mem k (x ∷ xs) = x == k || mem k xs

-- `s.add(k)`
unfoldable pub add : String → List String → List String
unfolding mem
add k s = if mem k s then s else s ++ k ∷ []

-- `s.delete(k)`
unfoldable pub remove : String → List String → List String
remove k [] = []
remove k (x ∷ xs) = if x == k then remove k xs else x ∷ remove k xs

-- `ks.forEach((k) => s.add(k))`
unfoldable pub add_all : List String → List String → List String
add_all [] s = s
add_all (k ∷ ks) s = add_all ks (add k s)

-- `ks.forEach((k) => s.delete(k))`
unfoldable pub remove_all : List String → List String → List String
remove_all [] s = s
remove_all (k ∷ ks) s = remove_all ks (remove k s)

-- `[...new Set(ks)]`
unfoldable pub dedupe : List String → List String
dedupe ks = add_all ks []

pub mem-append : (j : String) (xs ys : List String) → mem j (xs ++ ys) ≡ (mem j xs || mem j ys)
unfolding mem
mem-append j [] ys = refl
mem-append j (x ∷ xs) ys = ground (arith, mem-append j xs ys)

pub mem-add : (k j : String) (s : List String) → mem j (add k s) ≡ (k == j || mem j s)
unfolding add
mem-add k j s = ground (arith, eq_iff k j, mem-append j s (k ∷ []))

pub mem-remove : (k j : String) (s : List String) → mem j (remove k s) ≡ (not (k == j) && mem j s)
unfolding mem remove
mem-remove k j [] = ground arith
mem-remove k j (x ∷ xs) = ground (arith, eq_iff k j, eq_iff x k, eq_iff x j, mem-remove k j xs)

pub mem-add_all :
    (ks : List String) (j : String) (s : List String) → mem j (add_all ks s) ≡ (mem j ks || mem j s)
unfolding mem add_all
mem-add_all [] j s = refl
mem-add_all (k ∷ ks) j s = ground (arith, mem-add_all ks j (add k s), mem-add k j s)

pub mem-remove_all :
    (ks : List String) (j : String) (s : List String)
    → mem j (remove_all ks s) ≡ (not (mem j ks) && mem j s)
unfolding mem remove_all
mem-remove_all [] j s = refl
mem-remove_all (k ∷ ks) j s = ground (arith, mem-remove_all ks j (remove k s), mem-remove k j s)

-- No text stands twice in the list.
abbrev pub Distinct : List String → Type 0
Distinct [] = Unit
Distinct (x ∷ xs) = (mem x xs ≡ false) × Distinct xs

-- No text stands in both lists.
abbrev pub Apart : List String → List String → Type 0
Apart xs ys = All (λ x. mem x ys ≡ false) xs

-- How often a text stands in the list.
unfoldable pub count : String → List String → ℕ
count k [] = 0
count k (x ∷ xs) = (if x == k then 1 else 0) + count k xs

pub count-append : (j : String) (xs ys : List String) → count j (xs ++ ys) ≡ count j xs + count j ys
unfolding count
count-append j [] ys = omega arith
count-append j (x ∷ xs) ys = omega (arith, count-append j xs ys)

-- In a list without repetition a text stands once or never.
pub count-Distinct :
    (j : String) (xs : List String) → Distinct xs → count j xs ≡ (if mem j xs then 1 else 0)
unfolding count mem
count-Distinct j [] d = refl
count-Distinct j (x ∷ xs) d = ground (arith, eq_iff x j, count-Distinct j xs d.1)

pub mem-count : (j : String) (xs : List String) → mem j xs ≡ ltb 0 (count j xs)
unfolding count mem
mem-count j [] = ground arith
mem-count j (x ∷ xs) = ground (arith, mem-count j xs)

-- A text that is new goes to the end of a list without repetition.
pub append-Distinct :
    (k : String) (xs : List String) → mem k xs ≡ false → Distinct xs → Distinct (xs ++ k ∷ [])
unfolding mem
append-Distinct k [] e d = (refl, tt)
append-Distinct k (x ∷ xs) e d =
    ground (arith, eq_iff k x, eq_iff x k, mem-append x xs (k ∷ []), append-Distinct k xs)

pub add_all-Distinct : (ks s : List String) → Distinct s → Distinct (add_all ks s)
unfolding add_all add
add_all-Distinct [] s d = d
add_all-Distinct (k ∷ ks) s d =
    add_all-Distinct ks (add k s)
      (if-cases Distinct (mem k s) (λ _. d) (λ new. append-Distinct k s new d))

pub dedupe-Distinct : (ks : List String) → Distinct (dedupe ks)
unfolding dedupe
dedupe-Distinct ks = add_all-Distinct ks [] tt

pub mem-keep :
    (p : String → Bool) (j : String) (xs : List String) → mem j (keep p xs) ≡ (p j && mem j xs)
unfolding mem
mem-keep p j [] = ground arith
mem-keep p j (x ∷ xs) = elim (Bool-cases (x == j)) [
  | inl y ↦ ground (arith, y, ap p ((eq_iff x j).0 y), mem-keep p j xs)
  | inr n ↦ ground (arith, n, mem-keep p j xs)
]

pub mem-dedupe : (j : String) (ks : List String) → mem j (dedupe ks) ≡ mem j ks
unfolding dedupe mem
mem-dedupe j ks = ground (arith, mem-add_all ks j [])

pub keep-Distinct : (p : String → Bool) (xs : List String) → Distinct xs → Distinct (keep p xs)
keep-Distinct p [] d = tt
keep-Distinct p (x ∷ xs) (new, d) =
    if-cases Distinct (p x) (λ _. (ground (arith, new, mem-keep p x xs), keep-Distinct p xs d))
      (λ _. keep-Distinct p xs d)
