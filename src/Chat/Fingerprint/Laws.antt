-- ===== src/Chat/Fingerprint/Laws.antt =====
-- fingerprint.ts: a fingerprint is seen for its lifetime, and the cache stays bounded.
use livelier.Base.{
  ℕ, ◌+◌, ◌≤◌, ◌<◌, String, true, false, not, ◌≡◌, some, [], ◌∷◌, if◌then◌else◌, leb, length, keep,
  arith, eq_refl, if-cases,
}
use livelier.Base.Dict.{Dict, lookup, insert, erase, lookup-insert, length-insert}
use livelier.Chat.Fingerprint.{
  default_ttl_ms, max_entries, expired, has_fingerprint, shrink, prune, add_fingerprint,
}

length-shrink : (entries : Dict ℕ) → length (shrink entries) < max_entries
unfolding shrink
length-shrink [] = omega arith
length-shrink (e ∷ entries) =
    if-cases (λ (t : Dict ℕ). length t < max_entries) (leb max_entries (length (e ∷ entries)))
      (λ _. length-shrink entries) (λ h. ground arith)

-- After an addition the cache holds at most 500 fingerprints, whatever it held before.
pub length-add_fingerprint :
    (now : ℕ) (key : String) (entries : Dict ℕ)
    → length (add_fingerprint now key entries) ≤ max_entries
unfolding add_fingerprint prune
length-add_fingerprint now key entries = ground (
  arith,
  length-shrink (keep (λ e. not (expired now e.1)) entries),
  length-insert key now (prune now entries),
)

-- A fingerprint that was added at `now` is seen up to a minute later and no longer; looking leaves the
-- cache as it is, or without the entry once it has expired.
pub has_fingerprint-add_fingerprint :
    (now later : ℕ) (key : String) (entries : Dict ℕ)
    → has_fingerprint later key (add_fingerprint now key entries) ≡ (
        if leb later (now + default_ttl_ms)
        then (true, add_fingerprint now key entries)
        else (false, erase key (add_fingerprint now key entries)))
unfolding has_fingerprint add_fingerprint
has_fingerprint-add_fingerprint now later key entries =
    let found : lookup key (insert key now (prune now entries)) ≡ some now =
      ground (arith, lookup-insert key key now (prune now entries), eq_refl key) in
    rw found (ground arith)
