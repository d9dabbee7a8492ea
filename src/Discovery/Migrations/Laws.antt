-- ===== src/Discovery/Migrations/Laws.antt =====
-- migrations.ts: a run that failed is taken up where it failed, and one that did not leaves nothing.
use livelier.Base.{
  ℕ, ◌<◌, Bool, true, false, not, ◌||◌, ◌≡◌, refl, Option, none, some, List, [], ◌∷◌, ◌++◌, keep,
  leb, eqb, if-cases, arith, All, All-mono, subst,
}
use livelier.Discovery.Migrations.{
  Migration, is_applied, place, sort_versions, pending_migrations, Run, run_pending, run_migrations,
}

-- No two migrations have one version.
abbrev pub Unique : List Migration → Type 0
Unique [] = Unit
Unique (m ∷ ms) = All (λ n. eqb m.version n.version ≡ false) ms × Unique ms

abbrev Rising : List Migration → Type 0
Rising [] = Unit
Rising (m ∷ ms) = All (λ n. m.version < n.version) ms × Rising ms

place-All :
    (P : Migration → Type 0) (m : Migration) (ns : List Migration)
    → P m
    → All P ns
    → All P (place m ns)
unfolding place
place-All P m [] h a = (h, tt)
place-All P m (n ∷ ns) h (k, a) =
    if-cases (All P) (leb m.version n.version) (λ _. (h, (k, a))) (λ _. (k, place-All P m ns h a))

sort_versions-All :
    (P : Migration → Type 0) (ms : List Migration) → All P ms → All P (sort_versions ms)
unfolding sort_versions
sort_versions-All P [] a = tt
sort_versions-All P (m ∷ ms) (h, a) = place-All P m (sort_versions ms) h (sort_versions-All P ms a)

place-Rising :
    (m : Migration) (ns : List Migration)
    → All (λ n. eqb m.version n.version ≡ false) ns
    → Rising ns
    → Rising (place m ns)
unfolding place
place-Rising m [] a r = (tt, tt)
place-Rising m (n ∷ ns) (other, a) (first, r) =
    if-cases Rising (leb m.version n.version)
      (λ y.
        let below : m.version < n.version = ground (arith, y, other) in
        ((below, All-mono (λ o h. omega (arith, h, below)) ns first), (first, r)))
      (λ k. (
        place-All (λ o. n.version < o.version) m ns (ground (arith, k)) first,
        place-Rising m ns a r,
      ))

sort_versions-Rising : (ms : List Migration) → Unique ms → Rising (sort_versions ms)
unfolding sort_versions
sort_versions-Rising [] u = tt
sort_versions-Rising (m ∷ ms) (a, u) =
    place-Rising m (sort_versions ms)
      (sort_versions-All (λ n. eqb m.version n.version ≡ false) ms a) (sort_versions-Rising ms u)

is_applied-append :
    (xs : List ℕ) (x v : ℕ) → is_applied (xs ++ x ∷ []) v ≡ (is_applied xs v || eqb x v)
unfolding is_applied
is_applied-append [] x v = ground arith
is_applied-append (y ∷ xs) x v = ground (arith, is_applied-append xs x v)

run_pending-keeps :
    (applies : Migration → Bool) (ms : List Migration) (applied : List ℕ) (v : ℕ)
    → is_applied applied v ≡ true
    → is_applied (run_pending applies ms applied).applied v ≡ true
unfolding run_pending
run_pending-keeps applies [] applied v h = h
run_pending-keeps applies (m ∷ ms) applied v h =
    if-cases (λ (r : Run). is_applied r.applied v ≡ true) (applies m)
      (λ _.
        run_pending-keeps applies ms (applied ++ m.version ∷ []) v
          (ground (arith, h, is_applied-append applied m.version v)))
      (λ _. h)

-- What is not applied yet, among some migrations.
abbrev left_of : List ℕ → List Migration → List Migration
left_of applied ms = keep (λ m. not (is_applied applied m.version)) ms

left_of-append :
    (applied : List ℕ) (x : ℕ) (ms : List Migration)
    → All (λ n. x < n.version) ms
    → left_of (applied ++ x ∷ []) ms ≡ left_of applied ms
left_of-append applied x [] a = refl
left_of-append applied x (m ∷ ms) (h, a) =
    let same : is_applied (applied ++ x ∷ []) m.version ≡ is_applied applied m.version =
      ground (arith, h, is_applied-append applied x m.version) in
    rw (same, left_of-append applied x ms a) refl

abbrev pub first_version : List Migration → Option ℕ
first_version [] = none
first_version (m ∷ _) = some m.version

-- That a run failed at the first of `ms` that it leaves, or leaves none.
abbrev pub Resumes : List Migration → Run → Type 0
Resumes ms r = first_version (left_of r.applied ms) ≡ r.failed

-- A migration that a run applies, or that was applied before, is none of those that it leaves.
Resumes-past :
    (m : Migration) (ms : List Migration) (r : Run)
    → is_applied r.applied m.version ≡ true
    → Resumes ms r
    → Resumes (m ∷ ms) r
Resumes-past m ms r h rest = rw h rest

run_pending-Resumes :
    (applies : Migration → Bool) (ms : List Migration) (applied : List ℕ)
    → Rising ms
    → Resumes ms (run_pending applies (left_of applied ms) applied)
unfolding run_pending
run_pending-Resumes applies [] applied r = refl
run_pending-Resumes applies (m ∷ ms) applied (first, r) =
    if-cases (λ pending. Resumes (m ∷ ms) (run_pending applies pending applied))
      (not (is_applied applied m.version))
      (λ fresh.
        taken (ground (arith, fresh))
          (run_pending-Resumes applies ms (applied ++ m.version ∷ []) r))
      (λ held.
        let was : is_applied applied m.version ≡ true = ground (arith, held) in
        Resumes-past m ms (run_pending applies (left_of applied ms) applied)
          (run_pending-keeps applies (left_of applied ms) applied m.version was)
          (run_pending-Resumes applies ms applied r))
  where
    later : List ℕ
    later = applied ++ m.version ∷ []

    now_applied : is_applied later m.version ≡ true
    now_applied = ground (arith, is_applied-append applied m.version m.version)

    taken :
        is_applied applied m.version ≡ false
        → Resumes ms (run_pending applies (left_of later ms) later)
        → Resumes (m ∷ ms) (run_pending applies (m ∷ left_of applied ms) applied)
    taken fresh rest =
        if-cases (Resumes (m ∷ ms)) (applies m)
          (λ _.
            Resumes-past m ms (run_pending applies (left_of applied ms) later)
              (run_pending-keeps applies (left_of applied ms) later m.version now_applied)
              (subst (λ l. Resumes ms (run_pending applies l later))
                (left_of-append applied m.version ms first) rest))
          (λ _. rw fresh refl)

-- Of migrations with different versions, a run that did not fail leaves none pending, and one that
-- failed leaves the one that failed as the first of those that the next run applies.
pub run_migrations-Resumes :
    (applies : Migration → Bool) (migrations : List Migration) (applied : List ℕ)
    → Unique migrations
    → first_version
        (pending_migrations migrations (run_migrations applies migrations applied).applied)
      ≡ (run_migrations applies migrations applied).failed
unfolding run_migrations pending_migrations
run_migrations-Resumes applies migrations applied u =
    run_pending-Resumes applies (sort_versions migrations) applied
      (sort_versions-Rising migrations u)
