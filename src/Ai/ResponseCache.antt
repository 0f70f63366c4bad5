-- ===== src/Ai/ResponseCache.antt =====
-- `ResponseCache` of src/AI/ResponseCache.cpp. The key of a request, a hash of its text, is an
-- argument, and so is the time of the steady clock, in nanoseconds. The entries stand in the order of
-- their insertion, where `StringMap` goes through them in the order of hashes: of several entries with
-- the fewest hits, the code may evict another one.
pub mod Size
pub mod Answers
use block_type.Prelude.{
  ℕ, zero, suc, ◌+◌, ◌-◌, ◌/◌, ◌%◌, ◌^◌, Bool, true, false, Option, none, some, List, [], ◌∷◌,
  length, ltb, leb, if◌then◌else◌,
}
use Prim.Native.String.{String}
use block_type.Prelude.Maps
use block_type.Prelude.Maps.{string_key, lookup, erase}

pub record CacheEntry {ℓ} (R : Type ℓ) : Type ℓ where
  pub response : R
  pub timestamp : ℕ
  pub hit_count : ℕ

-- `ttl` is in seconds.
pub record ResponseCache {ℓ} (R : Type ℓ) : Type ℓ where
  pub cache : List (String × CacheEntry R)
  pub max_size : ℕ
  pub ttl : ℕ
  pub hits : ℕ
  pub misses : ℕ

-- `++` on an `unsigned`.
unfoldable pub increment : ℕ → ℕ
increment n = (n + 1) % 2 ^ 32

module _ {ℓ} {R : Type ℓ} where
  -- `Age > TTL`; the cast to seconds cuts off, and a timestamp that lies ahead is not expired.
  unfoldable pub is_expired : ℕ → ℕ → CacheEntry R → Bool
  is_expired now ttl e = ltb ttl ((now - e.timestamp) / 1000000000)

  unfoldable pub miss : ResponseCache R → ResponseCache R
  miss c = record c { misses = increment c.misses }

  unfoldable pub hit : String → CacheEntry R → ResponseCache R → ResponseCache R
  hit k e c = record c {
    cache = Maps.insert k (record e { hit_count = increment e.hit_count }) c.cache;
    hits = increment c.hits;
  }

  unfoldable pub find : ℕ → String → ResponseCache R → Option R × ResponseCache R
  find now k c = elim (lookup k c.cache) [
    | none ↦ (none, miss c)
    | some e ↦
        if is_expired now c.ttl e
        then (none, miss (record c { cache = erase k c.cache }))
        else (some e.response, hit k e c)
  ]

  -- `KeysToRemove`
  unfoldable pub expired_keys : ℕ → ℕ → List (String × CacheEntry R) → List String
  expired_keys now ttl [] = []
  expired_keys now ttl ((k, e) ∷ m) =
      let rest = expired_keys now ttl m in if is_expired now ttl e then k ∷ rest else rest

  unfoldable pub erase_keys :
      List String → List (String × CacheEntry R) → List (String × CacheEntry R)
  erase_keys [] m = m
  erase_keys (k ∷ ks) m = erase_keys ks (erase k m)

  -- The key of the first entry with the fewest hits.
  unfoldable pub least_used : String → ℕ → List (String × CacheEntry R) → String
  least_used k n [] = k
  least_used k n ((j, e) ∷ m) =
      if ltb e.hit_count n then least_used j e.hit_count m else least_used k n m

  unfoldable pub evict_one : List (String × CacheEntry R) → List (String × CacheEntry R)
  evict_one [] = []
  evict_one ((k, e) ∷ m) = erase (least_used k e.hit_count m) ((k, e) ∷ m)

  -- The loop that evicts, with the rounds that are left.
  unfoldable pub evict_loop : ℕ → ℕ → List (String × CacheEntry R) → List (String × CacheEntry R)
  evict_loop zero max_size m = m
  evict_loop (suc rounds) max_size m =
      if ltb max_size (length m) then evict_loop rounds max_size (evict_one m) else m

  unfoldable pub cleanup : ℕ → ResponseCache R → ResponseCache R
  cleanup now c =
      let left = erase_keys (expired_keys now c.ttl c.cache) c.cache in
      record c { cache = evict_loop (length left) c.max_size left }

  unfoldable pub insert : ℕ → String → R → ResponseCache R → ResponseCache R
  insert now k r c =
      let d = if leb c.max_size (length c.cache) then cleanup now c else c in
      record d {
        cache = Maps.insert k (record { response = r; timestamp = now; hit_count = 0 }) d.cache;
      }

  unfoldable pub clear : ResponseCache R → ResponseCache R
  clear c = record c { cache = []; hits = 0; misses = 0 }
