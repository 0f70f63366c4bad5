-- ===== src/Adt/Examples.antt =====
-- Runs of `DenseMap`, and its theorems at concrete tables.
use block_type.Prelude.{ℕ, ◌<◌, ◌≡◌, ◌⊎◌, refl, true, false, none, some, List, [], ◌∷◌, length}
use block_type.Prelude.Maps.{nat_key}
use block_type.Adt.DenseMap.Probes.{IsFree}
use block_type.Adt.DenseMap.{
  make_room, find, at, DenseMap, no_buckets, assign, erase, lookup, contains, lookup_bucket_for,
  occupied, tombstone, empty, at,
}
use block_type.Adt.DenseMap.Spec.{
  Call, assign_to, insert_at, erase_at, find_at, size_of, clear_all, Answer, nothing, inserted,
  erased, found, size, map_run, table_run, table_after,
}
use block_type.Adt.DenseMap.Refines.{table_run-map_run, lookup_bucket_for-in_range}

-- The keys 3 and 19 collide in a table of 16 buckets.
abbrev calls : List (Call ℕ ℕ)
calls =
    assign_to 3 30
    ∷ assign_to 19 190
    ∷ erase_at 3
    ∷ find_at 19
    ∷ insert_at 3 31
    ∷ insert_at 3 32
    ∷ find_at 3
    ∷ erase_at 7
    ∷ size_of
    ∷ clear_all
    ∷ find_at 19
    ∷ []

abbrev answers : List (Answer ℕ)
answers =
    nothing
    ∷ nothing
    ∷ erased 1
    ∷ found (some 190)
    ∷ inserted true
    ∷ inserted false
    ∷ found (some 31)
    ∷ erased 0
    ∷ size 2
    ∷ nothing
    ∷ found none
    ∷ []

table_run-answers : table_run (λ (k : ℕ). k) 0 calls no_buckets ≡ answers
unfolding table_run block_type.Adt.DenseMap.Spec.table_step erase lookup
    block_type.Adt.DenseMap.insert block_type.Adt.DenseMap.find assign
    block_type.Adt.DenseMap.subscript block_type.Adt.DenseMap.add block_type.Adt.DenseMap.place
    block_type.Adt.DenseMap.make_room block_type.Adt.DenseMap.grow block_type.Adt.DenseMap.move_all
    lookup_bucket_for block_type.Adt.DenseMap.probe_loop block_type.Adt.DenseMap.index_at
    block_type.Adt.DenseMap.write block_type.Adt.DenseMap.value_of block_type.Adt.DenseMap.clear
table_run-answers = refl

table_run-map_run_example : table_run (λ (k : ℕ). k) 0 calls no_buckets ≡ map_run calls []
table_run-map_run_example = table_run-map_run (λ (k : ℕ). k) 0 calls

abbrev crowded : DenseMap ℕ ℕ
crowded = table_after (λ (k : ℕ). 5) 0 calls no_buckets

-- Nine is probed for in a run of colliding keys.
lookup_bucket_for-in_range_example :
    let g = make_room (λ (k : ℕ). 5) crowded in
    let idx = lookup_bucket_for (λ (k : ℕ). 5) g.buckets 9 in
    ((length crowded.buckets ≡ 0)
      ⊎ (lookup_bucket_for (λ (k : ℕ). 5) crowded.buckets 9 < length crowded.buckets))
    × (idx < length g.buckets)
    × (((i : ℕ) × (find (λ (k : ℕ). 5) crowded 9 ≡ some i)) ⊎ IsFree (at g.buckets idx))
lookup_bucket_for-in_range_example = lookup_bucket_for-in_range (λ (k : ℕ). 5) 0 calls 9
