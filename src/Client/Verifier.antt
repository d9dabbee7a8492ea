-- ===== src/Client/Verifier.antt =====
-- packages/shared/src/nostr/services/event-verifier.ts: the set of event ids whose signatures were
-- verified. The Schnorr check of nostr-tools is a parameter.
pub mod Laws
use Prim.Native.String
use livelier.Base.{
  ℕ, suc, String, Bool, true, false, not, ◌&&◌, ◌||◌, List, [], ◌∷◌, length, leb, eqb,
  if◌then◌else◌,
}
use livelier.Base.Keys.{mem, add, remove}

pub record SignedEvent : Type 0 where
  pub id : String
  pub pubkey : String
  pub sig : String

pub record Verifier : Type 0 where
  pub verified_ids : List String
  pub schnorr_count : ℕ
  pub cache_hits : ℕ
  pub rejected_count : ℕ

abbrev pub max_verified_ids : ℕ
max_verified_ids = 20000

-- `verifiedIds.delete(oldest)`: a set keeps the order of insertion.
unfoldable pub drop_oldest : List String → List String
unfolding remove
drop_oldest [] = []
drop_oldest (oldest ∷ rest) = remove oldest (oldest ∷ rest)

unfoldable pub remember_verified : String → List String → List String
unfolding drop_oldest
remember_verified id ids =
    add id (if leb max_verified_ids (length ids) then drop_oldest ids else ids)

unfoldable pub mark_event_verified : String → Verifier → Verifier
unfolding remember_verified
mark_event_verified id v = record v { verified_ids = remember_verified id v.verified_ids }

unfoldable pub reset_verify_stats : Verifier → Verifier
reset_verify_stats v = record {
  verified_ids = [];
  schnorr_count = 0;
  cache_hits = 0;
  rejected_count = 0;
}

-- The lengths of the hexadecimal fields; the fields are texts by their type.
unfoldable pub is_malformed : SignedEvent → Bool
is_malformed e =
    not (eqb (String.count e.id) 64)
    || not (eqb (String.count e.pubkey) 64)
    || not (eqb (String.count e.sig) 128)

module _ (verify_event_pure : SignedEvent → Bool) where
  unfoldable pub verify_first : SignedEvent → Verifier → Bool × Verifier
  unfolding remember_verified
  verify_first e v =
      let v1 = record v { schnorr_count = suc v.schnorr_count } in
      if verify_event_pure e
      then (true, record v1 { verified_ids = remember_verified e.id v1.verified_ids })
      else (false, record v1 { rejected_count = suc v1.rejected_count })

  unfoldable pub cached_verify_event : SignedEvent → Verifier → Bool × Verifier
  unfolding verify_first is_malformed
  cached_verify_event e v =
      if is_malformed e
      then (false, record v { rejected_count = suc v.rejected_count })
      else if mem e.id v.verified_ids
      then (true, record v { cache_hits = suc v.cache_hits })
      else verify_first e v
