-- ===== src/Client/Batch/Tests.antt =====
-- The batch loader on a concrete run.
use livelier.Base.{ℕ, String, ◌≡◌, All, arith, if◌then◌else◌}
use livelier.Base.Keys.{mem}
use livelier.Client.Batch.{BatchLoader, new_loader, load}
use livelier.Client.Batch.Laws.{
  Reach, here, next, loads, outstanding, batch_of, Fits, Reach-single_batch,
}

-- Three keys for batches of two.
abbrev empty_loader : BatchLoader ℕ
empty_loader = new_loader 10 2

abbrev busy : BatchLoader ℕ
busy = load 3 "c" (load 2 "a" (load 1 "b" (load 0 "a" empty_loader)))

busy-Reach : Reach empty_loader busy
busy-Reach =
    next
      (next (next (next here (loads 0 "a" empty_loader)) (loads 1 "b" (load 0 "a" empty_loader)))
        (loads 2 "a" (load 1 "b" (load 0 "a" empty_loader))))
      (loads 3 "c" (load 2 "a" (load 1 "b" (load 0 "a" empty_loader))))

Reach-single_batch_example :
    ((j : String) → outstanding j busy ≡ (if mem j busy.in_flight then 1 else 0))
    × Fits 2 (batch_of busy.pending)
    × All (Fits 2) busy.full
    × All (Fits 2) busy.dispatched
Reach-single_batch_example = Reach-single_batch 2 (omega arith) 10 busy busy-Reach
