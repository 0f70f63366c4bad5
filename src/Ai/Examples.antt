-- ===== src/Ai/Examples.antt =====
-- A cache for one entry, and the theorems of `ResponseCache` at it.
use block_type.Prelude.{
  ℕ, ◌+◌, ◌-◌, ◌/◌, ◌≤◌, ◌≡◌, refl, Option, none, some, List, [], ◌∷◌, length, ltb, if◌then◌else◌,
}
use block_type.Ai.ResponseCache
use block_type.Ai.ResponseCache.{find, insert, cleanup}
use block_type.Ai.ResponseCache.Size.{Call, find_at, insert_at, apply, run, new_cache, length-run}
use block_type.Ai.ResponseCache.Answers.{latest_run, find-run}

-- The second entry comes when the cache is full, and stays beside the first; with the third, the one
-- that nobody asked for is evicted.
abbrev calls : List (Call ℕ)
calls = insert_at 0 "a" 1 ∷ insert_at 5 "b" 2 ∷ find_at 6 "a" ∷ insert_at 7 "c" 3 ∷ []

calls_entries :
    (length (run calls (new_cache 1 3600)).cache ≡ 2)
    × ((find 8 "a" (run calls (new_cache 1 3600))).0 ≡ some 1)
    × ((find 8 "b" (run calls (new_cache 1 3600))).0 ≡ none)
unfolding run new_cache apply find insert cleanup ResponseCache.miss ResponseCache.hit
    ResponseCache.increment ResponseCache.is_expired ResponseCache.expired_keys
    ResponseCache.erase_keys ResponseCache.evict_loop ResponseCache.evict_one
    ResponseCache.least_used block_type.Prelude.Maps.lookup block_type.Prelude.Maps.insert
    block_type.Prelude.Maps.erase
calls_entries = (refl, refl, refl)

length-run_example :
    (length (run calls (new_cache 1 3600)).cache ≤ 2)
    × ((now : ℕ) → length (cleanup now (run calls (new_cache 1 3600))).cache ≤ 1)
length-run_example = length-run 1 3600 calls

find-run_example :
    ((find 9 "a" (run calls (new_cache 1 3600))).0 ≡ some 1
      → (t : ℕ) × (latest_run calls (λ j. none) "a" ≡ some (t, 1)) × ((9 - t) / 1000000000 ≤ 3600))
    × ((find 9 "a" (insert 8 "a" 1 (run calls (new_cache 1 3600)))).0
        ≡ (if ltb 3600 ((9 - 8) / 1000000000) then none else some 1))
find-run_example = find-run 1 3600 calls 8 9 "a" 1
