-- ===== src/Discovery/Migrations.antt =====
-- packages/bridge/src/core/migrations.ts: the runner of schema migrations. `applies` says which
-- migrations the database takes, a parameter; a failed one is rolled back and ends the run. The lock, which
-- serializes the runs, and the SQL of the migrations are left out.
pub mod Laws
use livelier.Base.{
  ℕ, suc, ◌+◌, ◌≤◌, Bool, true, false, not, ◌&&◌, ◌||◌, ◌≡◌, refl, Option, none, some, List, [],
  ◌∷◌, ◌++◌, map, any, keep, length, leb, eqb, if◌then◌else◌, if-cases, arith, ap, sym, ◌∙◌,
  Bool-cases, inl, inr, ◌⊎◌, All,
}
use livelier.Base.{String}
use mathlib.Core.List.{append-nil, append_assoc}

pub record Migration : Type 0 where
  pub version : ℕ
  pub name : String
  pub sql : String

unfoldable pub is_applied : List ℕ → ℕ → Bool
is_applied applied version = any (λ v. eqb v version) applied

-- `sort((a, b) => a.version - b.version)`, which keeps the order of equals.
unfoldable pub place : Migration → List Migration → List Migration
place m [] = m ∷ []
place m (n ∷ ns) = if leb m.version n.version then m ∷ n ∷ ns else n ∷ place m ns

unfoldable pub sort_versions : List Migration → List Migration
unfolding place
sort_versions [] = []
sort_versions (m ∷ ms) = place m (sort_versions ms)

unfoldable pub pending_migrations : List Migration → List ℕ → List Migration
unfolding sort_versions is_applied
pending_migrations all applied = keep (λ m. not (is_applied applied m.version)) (sort_versions all)

-- What a run leaves: the versions in `schema_migrations`, in the order in which they were inserted, and
-- the version that failed, if one did.
pub record Run : Type 0 where
  pub applied : List ℕ
  pub failed : Option ℕ

unfoldable pub run_pending : (Migration → Bool) → List Migration → List ℕ → Run
run_pending applies [] applied = record { applied = applied; failed = none }
run_pending applies (m ∷ ms) applied =
    let rest = run_pending applies ms (applied ++ m.version ∷ []) in
    if applies m then rest else record { applied = applied; failed = some m.version }

unfoldable pub run_migrations : (Migration → Bool) → List Migration → List ℕ → Run
unfolding run_pending pending_migrations
run_migrations applies migrations applied =
    run_pending applies (pending_migrations migrations applied) applied
