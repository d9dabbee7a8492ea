-- ===== src/Client/Query/Finish.antt =====
-- client.service.ts: what the end of a relay's part, and an early completion, do to the accounts of `queryWithStats`.
use livelier.Base.{
  ◌⊎◌, suc, ◌+◌, ◌≤◌, String, true, false, not, ◌&&◌, ◌||◌, ◌≡◌, refl, Option, none, some, is_some,
  List, [], ◌∷◌, map, if◌then◌else◌, ◌==◌, arith, eq_iff, if-cases, inl, inr,
}
use livelier.Base.Dict.{Dict, lookup, insert, keys, lookup-insert, insert-Distinct, mem-keys}
use livelier.Base.Keys.{mem, Distinct}
use livelier.Client.Replaceable.{Event}
use livelier.Client.Query.{
  Query, Phase, Outcome, IsComplete, connecting, open_req, settled, released, holds, finish,
  finish_at, release_all, maybe_complete_early,
}
use livelier.Client.Query.Counts.{
  is_open, is_open_at, count_phase-none, is_answered, count_phase, count_phase-insert,
  count_phase-pos,
}

abbrev pub ids : List Event → List String
ids = map (λ e. e.id)

-- Every request that was opened is closed, or open still; the count of EOSEs is that of the relays
-- that ended by one; no event and no relay stands twice.
pub record IsAccounted (q : Query) : Type 0 where
  pub accounted : q.opened ≡ q.closed + count_phase is_open q.relays
  pub counted : q.eose_count ≡ count_phase is_answered q.relays
  pub once : Distinct (ids q.events)
  pub apart : Distinct (keys q.relays)

-- A query that completed early has no request open.
abbrev pub IsReleased : Query → Type 0
IsReleased q = q.completed_early ≡ true → count_phase is_open q.relays ≡ 0

pub answered-insert :
    (url : String) (phase : Phase) (m : Dict Phase)
    → lookup url m ≡ some open_req
    → count_phase is_answered (insert url phase m)
      ≡ count_phase is_answered m + (if is_answered phase then 1 else 0)
unfolding is_answered
answered-insert url phase m h = omega (arith, count_phase-insert is_answered url phase open_req m h)

-- A relay that is connecting counts for neither.
pub shut-insert :
    (url : String) (phase : Phase) (m : Dict Phase)
    → lookup url m ≡ some connecting
    → count_phase is_open (insert url phase m)
      ≡ count_phase is_open m + (if is_open phase then 1 else 0)
unfolding is_open
shut-insert url phase m h = omega (arith, count_phase-insert is_open url phase connecting m h)

pub unanswered-insert :
    (url : String) (phase : Phase) (m : Dict Phase)
    → lookup url m ≡ some connecting
    → count_phase is_answered (insert url phase m)
      ≡ count_phase is_answered m + (if is_answered phase then 1 else 0)
unfolding is_answered
unanswered-insert url phase m h =
    omega (arith, count_phase-insert is_answered url phase connecting m h)

pub open-pos :
    (url : String) (m : Dict Phase) → lookup url m ≡ some open_req → 1 ≤ count_phase is_open m
unfolding is_open
open-pos url m h = count_phase-pos is_open url open_req m h refl

pub open-settle :
    (url : String) (outcome : Outcome) (m : Dict Phase)
    → lookup url m ≡ some open_req
    → count_phase is_open (insert url (settled outcome) m) + 1 ≡ count_phase is_open m
unfolding is_open
open-settle url outcome m h =
    omega (arith, count_phase-insert is_open url (settled outcome) open_req m h)

pub finish-cases :
    (url : String) (outcome : Outcome) (q : Query)
    → ((lookup url q.relays ≡ some open_req)
        × (finish url outcome q
            ≡ record q { relays = insert url (settled outcome) q.relays; closed = suc q.closed }))
      ⊎ ((finish url outcome q ≡ q) × (is_open_at (lookup url q.relays) ≡ false))
unfolding finish
finish-cases url outcome q = found (lookup url q.relays)
  where
    found :
        (o : Option Phase)
        → ((o ≡ some open_req)
            × (finish_at url outcome o q ≡ record q {
              relays = insert url (settled outcome) q.relays;
              closed = suc q.closed;
            }))
          ⊎ ((finish_at url outcome o q ≡ q) × (is_open_at o ≡ false))
    found none = inr (refl, unfold is_open_at in refl)
    found (some connecting) = inr (refl, unfold is_open_at in refl)
    found (some open_req) = inl (refl, refl)
    found (some (settled x)) = inr (refl, unfold is_open_at in refl)

-- A relay that is settled without an EOSE, or was settled before.
module _ (url : String) (outcome : Outcome) (q : Query)
    (quiet : is_answered (settled outcome) ≡ false) where
  pub finish-IsAccounted : IsAccounted q → IsAccounted (finish url outcome q)
  finish-IsAccounted s = elim (finish-cases url outcome q) [
    | inl (h, e) ↦ rw e record {
      accounted = omega (arith, s.accounted, open-settle url outcome q.relays h);
      counted = ground (arith, quiet, s.counted, answered-insert url (settled outcome) q.relays h);
      once = s.once;
      apart = insert-Distinct url (settled outcome) q.relays s.apart;
    }
    | inr (e, _) ↦ rw e s
  ]

-- It is open no more, and the others are as they were.
pub finish-is_open_at :
    (url j : String) (outcome : Outcome) (q : Query)
    → is_open_at (lookup j (finish url outcome q).relays)
      ≡ (not (url == j) && is_open_at (lookup j q.relays))
unfolding is_open_at is_open
finish-is_open_at url j outcome q = elim (finish-cases url outcome q) [
  | inl (h, e) ↦ rw e (ground (arith, lookup-insert url j (settled outcome) q.relays))
  | inr (e, shut) ↦ rw e (ground (arith, shut, eq_iff url j))
]

pub finish-IsReleased :
    (url : String) (outcome : Outcome) (q : Query)
    → IsReleased q
    → IsReleased (finish url outcome q)
finish-IsReleased url outcome q r = elim (finish-cases url outcome q) [
  | inl (h, e) ↦ rw e (λ c. absurd (omega (arith, r c, open-pos url q.relays h)))
  | inr (e, _) ↦ rw e r
]

release_all-IsAccounted :
    (urls : List String) (q : Query) → IsAccounted q → IsAccounted (release_all urls q)
unfolding release_all is_answered
release_all-IsAccounted [] q s = s
release_all-IsAccounted (url ∷ urls) q s =
    release_all-IsAccounted urls (finish url released q) (finish-IsAccounted url released q refl s)

release_all-is_open_at :
    (urls : List String) (j : String) (q : Query)
    → is_open_at (lookup j (release_all urls q).relays)
      ≡ (not (mem j urls) && is_open_at (lookup j q.relays))
unfolding release_all mem
release_all-is_open_at [] j q = refl
release_all-is_open_at (url ∷ urls) j q = ground (
  arith,
  release_all-is_open_at urls j (finish url released q),
  finish-is_open_at url j released q,
)

-- A release of all relays leaves none open.
release_all-none :
    (q : Query) → IsAccounted q → count_phase is_open (release_all (keys q.relays) q).relays ≡ 0
release_all-none q s =
    count_phase-none (release_all (keys q.relays) q).relays
      (release_all-IsAccounted (keys q.relays) q s).apart
      (λ j. ground (
        arith,
        release_all-is_open_at (keys q.relays) j q,
        mem-keys j q.relays,
        unlisted j (lookup j q.relays),
      ))
  where
    unlisted : (j : String) (o : Option Phase) → is_some o ≡ false → is_open_at o ≡ false
    unlisted j none h = unfold is_open_at in refl
    unlisted j (some phase) h = absurd (ground (arith, h))

pub maybe_complete_early_sound :
    (is_complete : IsComplete) (q : Query)
    → IsAccounted q
    → IsReleased q
    → IsAccounted (maybe_complete_early is_complete q)
      × IsReleased (maybe_complete_early is_complete q)
unfolding maybe_complete_early
maybe_complete_early_sound is_complete q s r =
    if-cases (λ p. IsAccounted p × IsReleased p)
      (q.completed_early || not (holds is_complete q.events)) (λ _. (s, r))
      (λ _.
        let s' : IsAccounted (record q { completed_early = true }) = record {
          accounted = s.accounted;
          counted = s.counted;
          once = s.once;
          apart = s.apart;
        } in
        (
          release_all-IsAccounted (keys q.relays) (record q { completed_early = true }) s',
          λ _. release_all-none (record q { completed_early = true }) s',
        ))
