-- ===== src/Discovery/Store/Laws.antt =====
-- instance-store.ts: what an upsert and an update leave behind.
use livelier.Base.{
  ℕ, String, Bool, false, Option, none, some, List, [], ◌∷◌, ◌++◌, ◌==◌, ◌≡◌, refl, sym, subst,
  if◌then◌else◌, is_some, arith, eq_iff, eq_refl, Option-cases, inl, inr, map, All,
}
use livelier.Base.Keys.{mem, Distinct, append-Distinct}
use mathlib.Core.Option
use livelier.Discovery.Store.{
  InstanceRow, UpsertSeenInput, Origin, inserted, refreshed, get, update, upsert_at, upsert_seen,
}

-- What `update` makes of a row.
abbrev pub updated : ℕ → (InstanceRow → InstanceRow) → InstanceRow → InstanceRow
updated now f row = record (f row) { url = row.url; updated_at = now }

-- What the passes never write: the operator's flags, the origin, the key and the first sight.
abbrev pub Settings : Type 0
Settings = Bool × Bool × Origin × String × ℕ

abbrev pub settings : InstanceRow → Settings
settings row = (row.discovery_enabled, row.chat_enabled, row.origin, row.pubkey, row.first_seen_at)

abbrev pub settings_at : String → List InstanceRow → Option Settings
settings_at url rows = Option.map settings (get url rows)

abbrev pub is_enabled : Option Settings → Bool
is_enabled none = false
is_enabled (some s) = s.0

abbrev pub urls : List InstanceRow → List String
urls = map (λ row. row.url)

pub get-update :
    (now : ℕ) (url j : String) (f : InstanceRow → InstanceRow) (rows : List InstanceRow)
    → get j (update now url f rows)
      ≡ (if url == j then Option.map (updated now f) (get j rows) else get j rows)
unfolding get update
get-update now url j f [] = ground arith
get-update now url j f (row ∷ rows) =
    ground (arith, eq_iff url j, eq_iff row.url url, eq_iff row.url j, get-update now url j f rows)

pub get-append :
    (j : String) (rows : List InstanceRow) (row : InstanceRow)
    → get j (rows ++ row ∷ [])
      ≡ (if is_some (get j rows) then get j rows else if row.url == j then some row else none)
unfolding get
get-append j [] row = ground arith
get-append j (r ∷ rows) row = ground (arith, get-append j rows row)

pub mem-urls : (j : String) (rows : List InstanceRow) → mem j (urls rows) ≡ is_some (get j rows)
unfolding get mem
mem-urls j [] = refl
mem-urls j (r ∷ rows) = ground (arith, mem-urls j rows)

pub urls-update :
    (now : ℕ) (url : String) (f : InstanceRow → InstanceRow) (rows : List InstanceRow)
    → urls (update now url f rows) ≡ urls rows
unfolding update
urls-update now url f [] = refl
urls-update now url f (r ∷ rows) = ground (arith, urls-update now url f rows)

-- A write of columns that leaves the settings alone.
abbrev pub Keeps : (InstanceRow → InstanceRow) → Type 0
Keeps f = (row : InstanceRow) → settings (f row) ≡ settings row

pub settings_at-update :
    (now : ℕ) (url j : String) (f : InstanceRow → InstanceRow) (rows : List InstanceRow)
    → Keeps f
    → settings_at j (update now url f rows) ≡ settings_at j rows
unfolding get update
settings_at-update now url j f [] k = refl
settings_at-update now url j f (r ∷ rows) k =
    ground (arith, k r, eq_iff r.url url, settings_at-update now url j f rows k)

-- The upsert returns the row that the table then has.
pub get-upsert_seen :
    (now : ℕ) (i : UpsertSeenInput) (rows : List InstanceRow)
    → get i.url (upsert_seen now i rows).2 ≡ some (upsert_seen now i rows).0
unfolding upsert_seen upsert_at inserted refreshed
get-upsert_seen now i rows = elim (Option-cases (get i.url rows)) [
  | inl e ↦ ground (arith, e, eq_refl i.url, get-append i.url rows (inserted now i))
  | inr (row, e) ↦
      ground (arith, e, eq_refl i.url, get-update now i.url i.url (refreshed now i) rows)
]

-- An upsert moves the settings of no row that is there, a new row starts with the defaults, and no
-- URL but the given one gets a row.
pub settings_at-upsert_seen :
    (now : ℕ) (i : UpsertSeenInput) (j : String) (rows : List InstanceRow)
    → settings_at j (upsert_seen now i rows).2 ≡ (
        if is_some (get j rows)
        then settings_at j rows
        else if i.url == j
        then some (i.discovery_enabled, i.chat_enabled, Origin.discovered, i.pubkey, now)
        else none)
unfolding upsert_seen upsert_at inserted refreshed
settings_at-upsert_seen now i j rows = elim (Option-cases (get i.url rows)) [
  | inl e ↦ ground (arith, e, eq_iff i.url j, get-append j rows (inserted now i))
  | inr (row, e) ↦
      ground (
        arith,
        e,
        eq_iff i.url j,
        settings_at-update now i.url j (refreshed now i) rows (λ r. refl),
      )
]

urls-append :
    (rows : List InstanceRow) (row : InstanceRow)
    → urls (rows ++ row ∷ []) ≡ urls rows ++ row.url ∷ []
urls-append [] row = refl
urls-append (r ∷ rows) row = rw (urls-append rows row)

upsert_at-Distinct :
    (now : ℕ) (i : UpsertSeenInput) (found : Option InstanceRow) (rows : List InstanceRow)
    → get i.url rows ≡ found
    → Distinct (urls rows)
    → Distinct (urls (upsert_at now i found rows).2)
unfolding upsert_at inserted refreshed
upsert_at-Distinct now i none rows e d =
    subst Distinct (sym (urls-append rows (inserted now i)))
      (append-Distinct i.url (urls rows) (ground (arith, mem-urls i.url rows)) d)
upsert_at-Distinct now i (some row) rows e d =
    subst Distinct (sym (urls-update now i.url (refreshed now i) rows)) d

pub upsert_seen-Distinct :
    (now : ℕ) (i : UpsertSeenInput) (rows : List InstanceRow)
    → Distinct (urls rows)
    → Distinct (urls (upsert_seen now i rows).2)
unfolding upsert_seen
upsert_seen-Distinct now i rows d = upsert_at-Distinct now i (get i.url rows) rows refl d

pub get-url :
    (j : String) (rows : List InstanceRow) (row : InstanceRow) → get j rows ≡ some row → row.url ≡ j
unfolding get
get-url j [] row e = ground arith
get-url j (r ∷ rows) row e = ground (arith, eq_iff r.url j, get-url j rows row)

get-skip :
    (r : InstanceRow) (base rows : List InstanceRow)
    → mem r.url (urls rows) ≡ false
    → All (λ row. get row.url base ≡ some row) rows
    → All (λ row. get row.url (r ∷ base) ≡ some row) rows
unfolding get mem
get-skip r base [] e h = tt
get-skip r base (x ∷ rows) e (h, hs) = (
  ground (arith, eq_iff x.url r.url, eq_iff r.url x.url),
  get-skip r base rows (ground (arith)) hs,
)

-- Where the URLs are distinct, every row is found by its own.
pub get-own :
    (rows : List InstanceRow) → Distinct (urls rows) → All (λ row. get row.url rows ≡ some row) rows
unfolding get
get-own [] d = tt
get-own (r ∷ rows) d = (ground (arith, eq_refl r.url), get-skip r rows rows d.0 (get-own rows d.1))
