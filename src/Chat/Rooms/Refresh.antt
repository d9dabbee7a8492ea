-- ===== src/Chat/Rooms/Refresh.antt =====
-- `refreshRooms`: which rooms it leaves.
use livelier.Base.{
  String, Bool, true, false, not, ◌&&◌, ◌||◌, ◌≡◌, refl, sym, subst, ap, ◌∙◌, ◌⊎◌, inl, inr, none,
  List, [], ◌∷◌, ◌++◌, if◌then◌else◌, if-cases, Bool-cases, is_some, any, arith, ◌==◌, eq_iff,
  eq_refl, All,
}
use livelier.Base.Dict.{Dict, lookup, insert, has, lookup-insert, lookup_nil, All-insert}
use livelier.Discovery.Store.{InstanceRow}
use livelier.Chat.State.{ChatServiceConfig, Room, Service}
use livelier.Chat.Firehose.{ensure_nostr_sub, ensure_network_sub, is_empty}
use livelier.Chat.Rooms.{
  wanted_rooms, close_unwanted, new_room, start_listener, open_room, open_rooms, ensure_subs,
  refresh_rooms,
}

-- A row stands under its own URL.
abbrev pub Keyed : Dict InstanceRow → Type 0
Keyed = All (λ e. e.1.url ≡ e.0)

wanted_rooms-Keyed :
    (rows : List InstanceRow) (m : Dict InstanceRow) → Keyed m → Keyed (wanted_rooms rows m)
unfolding wanted_rooms
wanted_rooms-Keyed [] m h = h
wanted_rooms-Keyed (row ∷ rows) m h =
    wanted_rooms-Keyed rows (insert row.url row m)
      (All-insert (λ (e : String × InstanceRow). e.1.url ≡ e.0) row.url row m refl h)

has-wanted_rooms :
    (url : String) (rows : List InstanceRow) (m : Dict InstanceRow)
    → has url (wanted_rooms rows m) ≡ (any (λ r. r.url == url) rows || has url m)
unfolding wanted_rooms
has-wanted_rooms url [] m = refl
has-wanted_rooms url (row ∷ rows) m =
    ground
      (arith, has-wanted_rooms url rows (insert row.url row m), lookup-insert row.url url row m)

lookup-close_unwanted :
    (url : String) (wanted : Dict InstanceRow) (rooms : Dict Room)
    → lookup url (close_unwanted wanted rooms).0
      ≡ (if has url wanted then lookup url rooms else none)
unfolding close_unwanted lookup
lookup-close_unwanted url wanted [] = ground arith
lookup-close_unwanted url wanted ((u, room) ∷ rooms) =
    ground (arith, eq_iff u url, lookup-close_unwanted url wanted rooms)

module _ (config : ChatServiceConfig) (opens : String → Bool) where
  -- Two insertions under another key.
  insert-other :
      (url u : String) (v : Room) (m : Dict Room)
      → (u == url) ≡ false
      → lookup url (insert u v m) ≡ lookup url m
  insert-other url u v m n = ground (arith, n, lookup-insert u url v m)

  insert-has : (u : String) (v : Room) (m : Dict Room) → has u (insert u v m) ≡ true
  insert-has u v m = ground (arith, lookup-insert u u v m, eq_refl u)

  other_key :
      (url u : String) (m : Dict Room)
      → ((u == url) ≡ false) ⊎ (has url m ≡ true)
      → has u m ≡ false
      → (u == url) ≡ false
  other_key url u m (inl n) e = n
  other_key url u m (inr h) e = ground (arith, eq_iff u url, h, e)

  open_room-keeps :
      (url u : String) (row : InstanceRow) (s : Service)
      → row.url ≡ u
      → ((u == url) ≡ false) ⊎ (has url s.rooms ≡ true)
      → lookup url (open_room config opens u row s).1.rooms ≡ lookup url s.rooms
  unfolding open_room start_listener
  open_room-keeps url u row s e h =
      let P : Bool × Service → Type 0 = λ r. lookup url r.1.rooms ≡ lookup url s.rooms in
      let room = new_room config opens row s.next_serial in
      let heard : Room = record room { listening = true } in
      if-cases P (has u s.rooms) (λ _. refl)
        (λ absent.
          let n = other_key url u s.rooms h absent in
          let one = insert-other url u room s.rooms n in
          if-cases P (config.chat_to_nostr && not config.has_demand)
            (λ _.
              if-cases P (opens row.url)
                (λ _. insert-other url row.url heard (insert u room s.rooms) (rw e n) ∙ one)
                (λ _. one))
            (λ _. one))

  open_room-has :
      (u : String) (row : InstanceRow) (s : Service)
      → row.url ≡ u
      → has u (open_room config opens u row s).1.rooms ≡ true
  unfolding open_room start_listener
  open_room-has u row s e =
      let P : Bool × Service → Type 0 = λ r. has u r.1.rooms ≡ true in
      let room = new_room config opens row s.next_serial in
      let heard : Room = record room { listening = true } in
      let one = insert-has u room s.rooms in
      if-cases P (has u s.rooms) (λ there. there)
        (λ _.
          if-cases P (config.chat_to_nostr && not config.has_demand)
            (λ _.
              if-cases P (opens row.url)
                (λ _.
                  subst (λ k. has u (insert k heard (insert u room s.rooms)) ≡ true) (sym e)
                    (insert-has u heard (insert u room s.rooms)))
                (λ _. one))
            (λ _. one))

  not_first :
      (url u : String) (row : InstanceRow) (wanted : Dict InstanceRow)
      → has url ((u, row) ∷ wanted) ≡ false
      → ((u == url) ≡ false) × (has url wanted ≡ false)
  unfolding lookup
  not_first url u row wanted n = ground (arith, n)

  open_rooms-keeps :
      (url : String) (wanted : Dict InstanceRow) (s : Service)
      → Keyed wanted
      → (has url wanted ≡ false) ⊎ (has url s.rooms ≡ true)
      → lookup url (open_rooms config opens wanted s).1.rooms ≡ lookup url s.rooms
  unfolding open_rooms lookup
  open_rooms-keeps url [] s k h = refl
  open_rooms-keeps url ((u, row) ∷ wanted) s (e, k) h =
      let step = open_room config opens u row s in
      let now_ : ((u == url) ≡ false) ⊎ (has url s.rooms ≡ true) = elim h [
        | inl n ↦ inl (not_first url u row wanted n).0
        | inr p ↦ inr p
      ] in
      let same = open_room-keeps url u row s e now_ in
      let later : (has url wanted ≡ false) ⊎ (has url step.1.rooms ≡ true) = elim h [
        | inl n ↦ inl (not_first url u row wanted n).1
        | inr p ↦ inr (ap is_some same ∙ p)
      ] in
      if-cases (λ (r : Bool × Service). lookup url r.1.rooms ≡ lookup url s.rooms) step.0
        (λ _. open_rooms-keeps url wanted step.1 k later ∙ same) (λ _. same)

  -- Once its row has been opened, a room stays open for the rest of the loop.
  open_rooms-stays :
      (url : String) (wanted : Dict InstanceRow) (s : Service)
      → Keyed wanted
      → has url s.rooms ≡ true
      → has url (open_rooms config opens wanted s).1.rooms ≡ true
  open_rooms-stays url wanted s k h = ap is_some (open_rooms-keeps url wanted s k (inr h)) ∙ h

  open_room-resolves :
      (u : String) (row : InstanceRow) (s : Service)
      → ((v : String) → opens v ≡ true)
      → (open_room config opens u row s).0 ≡ true
  unfolding open_room start_listener
  open_room-resolves u row s all =
      let P : Bool × Service → Type 0 = λ r. r.0 ≡ true in
      if-cases P (has u s.rooms) (λ _. refl)
        (λ _.
          if-cases P (config.chat_to_nostr && not config.has_demand)
            (λ _. if-cases P (opens row.url) (λ _. refl) (λ n. ground (arith, n, all row.url)))
            (λ _. refl))

  open_rooms-has :
      (url : String) (wanted : Dict InstanceRow) (s : Service)
      → ((v : String) → opens v ≡ true)
      → Keyed wanted
      → has url wanted ≡ true
      → has url (open_rooms config opens wanted s).1.rooms ≡ true
  unfolding open_rooms lookup
  open_rooms-has url [] s all k h = ground (arith, h)
  open_rooms-has url ((u, row) ∷ wanted) s all (e, k) h =
      let step = open_room config opens u row s in
      rw (open_room-resolves u row s all) (elim (Bool-cases (u == url)) [
        | inl first ↦ open_rooms-stays url wanted step.1 k (
            subst (λ v. has v step.1.rooms ≡ true) ((eq_iff u url).0 first)
              (open_room-has u row s e))
        | inr n ↦ open_rooms-has url wanted step.1 all k (ground (arith, n, h))
      ])

  rooms-ensure_nostr_sub : (s : Service) → (ensure_nostr_sub config s).rooms ≡ s.rooms
  unfolding ensure_nostr_sub
  rooms-ensure_nostr_sub s =
      if-cases (λ (t : Service). t.rooms ≡ s.rooms)
        (s.stopped || not config.chat_from_nostr || is_some s.nostr_sub) (λ _. refl) (λ _. refl)

  rooms-ensure_network_sub : (s : Service) → (ensure_network_sub config s).rooms ≡ s.rooms
  unfolding ensure_network_sub
  rooms-ensure_network_sub s =
      if-cases (λ (t : Service). t.rooms ≡ s.rooms)
        (s.stopped || not config.chat_from_nostr || is_some s.network_sub) (λ _. refl)
        (λ _.
          if-cases (λ (t : Service). t.rooms ≡ s.rooms) (is_empty config.network_chat_read_relays)
            (λ _. refl) (λ _. refl))

  rooms-ensure_subs : (r : Bool × Service) → (ensure_subs config opens r).rooms ≡ r.1.rooms
  rooms-ensure_subs (false, s) = refl
  rooms-ensure_subs (true, s) =
      rooms-ensure_network_sub (ensure_nostr_sub config s) ∙ rooms-ensure_nostr_sub s

  -- Some row of the allowlist has the URL.
  abbrev pub listed : String → List InstanceRow → Bool
  listed url rows = any (λ r. r.url == url) rows

  -- After a refresh a room whose URL is not listed any more is gone; a room that was open and is still
  -- listed is the same object, whether the listeners of others open or throw; and if every listener opens,
  -- each listed URL has a room.
  pub refresh_rooms-lookup :
      (rows : List InstanceRow) (s : Service) (url : String)
      → (listed url rows ≡ false → lookup url (refresh_rooms config opens rows s).rooms ≡ none)
        × (listed url rows ≡ true
            → has url s.rooms ≡ true
            → lookup url (refresh_rooms config opens rows s).rooms ≡ lookup url s.rooms)
        × (((v : String) → opens v ≡ true)
            → listed url rows ≡ true
            → has url (refresh_rooms config opens rows s).rooms ≡ true)
  unfolding refresh_rooms
  refresh_rooms-lookup rows s url =
      let wanted = wanted_rooms rows [] in
      let kept = close_unwanted wanted s.rooms in
      let s1 : Service = record s { rooms = kept.0; closed_rooms = kept.1 ++ s.closed_rooms } in
      let keyed = wanted_rooms-Keyed rows [] tt in
      let same : has url wanted ≡ listed url rows =
        has-wanted_rooms url rows [] ∙ ground (arith, lookup_nil {V = InstanceRow} url) in
      let left = lookup-close_unwanted url wanted s.rooms in
      let end = rooms-ensure_subs (open_rooms config opens wanted s1) in
      (
        (λ no_row.
            let gone : lookup url kept.0 ≡ none = ground (arith, left, same, no_row) in
            ap (lookup url) end
            ∙ open_rooms-keeps url wanted s1 keyed (inl (same ∙ no_row))
            ∙ gone),
        (λ row was_open.
            let stays : lookup url kept.0 ≡ lookup url s.rooms = ground (arith, left, same, row) in
            ap (lookup url) end
            ∙ open_rooms-keeps url wanted s1 keyed (inr (ap is_some stays ∙ was_open))
            ∙ stays),
        λ all row. ap (has url) end ∙ open_rooms-has url wanted s1 all keyed (same ∙ row),
      )
