-- ===== src/Chat/Fingerprint.antt =====
-- packages/bridge/src/core/chat/fingerprint.ts: the third layer of dedup. The map goes from a fingerprint
-- to the time it was added, in insertion order; a reading of the clock is the argument `now`.
pub mod Laws
use livelier.Base.{
  ℕ, ◌+◌, String, Bool, true, false, not, Option, none, some, List, [], ◌∷◌, if◌then◌else◌, ltb,
  leb, length, keep,
}
use livelier.Base.Dict.{Dict, lookup, insert, erase}
use livelier.Base.Text.{cat}

abbrev pub default_ttl_ms : ℕ
default_ttl_ms = 60000

abbrev pub max_entries : ℕ
max_entries = 500

-- `FingerprintCache.key`
unfoldable pub fingerprint : String → String → String
fingerprint display_name content = cat display_name (cat ":" content)

-- `now - at > ttl`
abbrev pub expired : ℕ → ℕ → Bool
expired now at = ltb (at + default_ttl_ms) now

abbrev pub has_at : ℕ → String → Option ℕ → Dict ℕ → Bool × Dict ℕ
has_at now key none entries = (false, entries)
has_at now key (some at) entries =
    if expired now at then (false, erase key entries) else (true, entries)

unfoldable pub has_fingerprint : ℕ → String → Dict ℕ → Bool × Dict ℕ
unfolding lookup erase
has_fingerprint now key entries = has_at now key (lookup key entries) entries

-- `while (size >= MAX_ENTRIES) delete(oldest)`
unfoldable pub shrink : Dict ℕ → Dict ℕ
shrink [] = []
shrink (e ∷ entries) =
    let rest = shrink entries in
    if leb max_entries (length (e ∷ entries)) then rest else e ∷ entries

unfoldable pub prune : ℕ → Dict ℕ → Dict ℕ
unfolding shrink
prune now entries = shrink (keep (λ e. not (expired now e.1)) entries)

unfoldable pub add_fingerprint : ℕ → String → Dict ℕ → Dict ℕ
unfolding prune insert
add_fingerprint now key entries = insert key now (prune now entries)
