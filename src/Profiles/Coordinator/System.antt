-- ===== src/Profiles/Coordinator/System.antt =====
-- The coordinator among its callers, the relay client and the clock. A batch that the client has not
-- answered is outstanding; the answers come in any order.
use livelier.Base.{ℕ, ◌+◌, ◌≤◌, ◌≡◌, String, Option, none, some, List, [], ◌∷◌, ◌++◌}
use livelier.Base.Dict.{Dict}
use livelier.Base.Keys.{count}
use livelier.Profiles.MissCache.{ProfileMissCache}
use livelier.Profiles.Cache.Info.{ProfileInfo}
use livelier.Profiles.Cache.Interface.{ProfileCacheLike}
use livelier.Profiles.Coordinator.Ops.{
  Coordinator, Event, create, on_hydrated, retain, release, on_fetched, on_rejected,
  apply_early_profile_event,
}
use livelier.Profiles.Coordinator.Flush.{
  flush, on_boot_timer, on_retry_timer, refresh_begin, refresh_end,
}

pub record System (C : Type 0) : Type 0 where
  pub clock : ℕ
  pub coordinator : Coordinator C
  pub outstanding : List (List String)
  -- The instants of the dispatches, the latest first.
  pub dispatched_at : List ℕ

-- What a flush hands to the client.
unfoldable pub send : {C : Type 0} → System C → Coordinator C × Option (List String) → System C
send x (s, none) = record x { coordinator = s }
send x (s, some batch) = record x {
  coordinator = s;
  outstanding = batch ∷ x.outstanding;
  dispatched_at = x.clock ∷ x.dispatched_at;
}

-- How many outstanding fetches ask for the pubkey.
unfoldable pub fetches_of : String → List (List String) → ℕ
fetches_of j [] = 0
fetches_of j (batch ∷ rest) = count j batch + fetches_of j rest

unfoldable pub boot : {C : Type 0} → ℕ → C → ProfileMissCache → System C
boot now cache misses = record {
  clock = now;
  coordinator = create now cache misses;
  outstanding = [];
  dispatched_at = [];
}

module _ (parse : ℕ → String → Option ProfileInfo) (P : ProfileCacheLike) where
  open P use {Cache}

  pub data Step (x : System Cache) : System Cache → Type 0 where
    tick : (now : ℕ) → x.clock ≤ now → Step x (record x { clock = now })
    hydrates :
        (missed : List String)
        → Step x (record x { coordinator = on_hydrated missed x.coordinator })
    retains :
        (pubkeys : List String) → Step x (record x { coordinator = retain pubkeys x.coordinator })
    releases :
        (pubkeys : List String)
        → Step x (record x { coordinator = release x.clock pubkeys x.coordinator })
    flushes : Step x (send x (flush P x.clock x.coordinator))
    boot_timer_fires : Step x (send x (on_boot_timer P x.clock x.coordinator))
    retry_timer_fires : Step x (send x (on_retry_timer P x.clock x.coordinator))
    streams :
        (event : Event)
        → Step x (record x {
          coordinator = apply_early_profile_event parse P x.clock event x.coordinator;
        })
    fetched :
        (before after : List (List String)) (batch : List String) (events : List (Option Event))
        → x.outstanding ≡ before ++ batch ∷ after
        → Step x (record x {
          coordinator = on_fetched parse P x.clock batch events x.coordinator;
          outstanding = before ++ after;
        })
    rejected :
        (before after : List (List String)) (batch : List String)
        → x.outstanding ≡ before ++ batch ∷ after
        → Step x (record x {
          coordinator = on_rejected x.clock batch x.coordinator;
          outstanding = before ++ after;
        })
    refresh_begins :
        (pubkeys : List String) (previous : Dict ProfileInfo)
        → Step x
            (record x { coordinator = (refresh_begin P x.clock pubkeys previous x.coordinator).1 })
    refresh_ends :
        (pubkeys : List String) (previous : Dict ProfileInfo) (result : Dict (Option ProfileInfo))
        → Step x (record x {
          coordinator = (refresh_end P x.clock pubkeys previous result x.coordinator).1;
        })

  pub data Reach (x : System Cache) : System Cache → Type 0 where
    here : Reach x x
    next : {y z : System Cache} → Reach x y → Step y z → Reach x z
