-- ===== src/Ai/ResponseCache/Size.antt =====
-- How many entries the cache holds.
use block_type.Prelude.{
  refl, ◌∙◌, ℕ, zero, suc, ◌+◌, ◌≤◌, ◌<◌, ◌≡◌, inl, inr, some, List, [], ◌∷◌, length, arith,
  Bool-cases, Option-cases, ltb, leb,
}
use Prim.Native.String.{String}
use block_type.Prelude.Maps
use block_type.Prelude.Maps.{Key, string_key, lookup, erase}
use block_type.Ai.ResponseCache.{
  CacheEntry, ResponseCache, miss, hit, find, expired_keys, erase_keys, least_used, evict_one,
  evict_loop, cleanup, insert, clear,
}

module _ {ℓ} {V : Type ℓ} where
  length-erase : (k : String) (m : List (String × V)) → length (erase k m) ≤ length m
  unfolding erase
  length-erase k [] = omega arith
  length-erase k ((j, v) ∷ m) = ground (arith, length-erase k m)

  length-insert :
      (k : String) (v : V) (m : List (String × V)) → length (Maps.insert k v m) ≤ length m + 1
  unfolding Maps.insert
  length-insert k v [] = omega arith
  length-insert k v ((j, w) ∷ m) = ground (arith, length-insert k v m)

  -- An entry that is there keeps its place.
  length-insert_old :
      (k : String) (v w : V) (m : List (String × V))
      → lookup k m ≡ some w
      → length (Maps.insert k v m) ≡ length m
  unfolding Maps.insert lookup
  length-insert_old k v w [] h = absurd (ground arith)
  length-insert_old k v w ((j, u) ∷ m) h = ground (arith, length-insert_old k v w m)

  -- The erased key has an entry.
  length-erase_old :
      (k : String) (w : V) (m : List (String × V))
      → lookup k m ≡ some w
      → length (erase k m) < length m
  unfolding erase lookup
  length-erase_old k w [] h = absurd (ground arith)
  length-erase_old k w ((j, u) ∷ m) h = ground (arith, length-erase k m, length-erase_old k w m)

  abbrev Present : String → List (String × V) → Type ℓ
  Present k m = (v : V) × (lookup k m ≡ some v)

  Present-first : (k : String) (v : V) (m : List (String × V)) → Present k ((k, v) ∷ m)
  unfolding lookup
  Present-first k v m = (v, ground (arith, string_key.same_iff k k))

  Present-behind :
      (k j : String) (v : V) (m : List (String × V)) → Present k m → Present k ((j, v) ∷ m)
  unfolding lookup
  Present-behind k j v m (w, h) = elim (Bool-cases (string_key.same j k)) [
    | inl same ↦ (v, ground arith)
    | inr differs ↦ (w, ground arith)
  ]

  Present-between :
      (k i j : String) (v w : V) (m : List (String × V))
      → Present k ((i, v) ∷ m)
      → Present k ((i, v) ∷ (j, w) ∷ m)
  unfolding lookup
  Present-between k i j v w m (u, h) = elim (Bool-cases (string_key.same i k)) [
    | inl first ↦ (v, ground arith)
    | inr later ↦ Present-behind k i v ((j, w) ∷ m) (Present-behind k j w m (u, ground arith))
  ]

module _ {ℓ} {R : Type ℓ} where
  length-erase_keys :
      (ks : List String) (m : List (String × CacheEntry R)) → length (erase_keys ks m) ≤ length m
  unfolding erase_keys
  length-erase_keys [] m = omega arith
  length-erase_keys (k ∷ ks) m = omega (arith, length-erase k m, length-erase_keys ks (erase k m))

  -- The key that is evicted has an entry.
  least_used-Present :
      (k : String) (e : CacheEntry R) (m : List (String × CacheEntry R))
      → Present (least_used k e.hit_count m) ((k, e) ∷ m)
  unfolding least_used
  least_used-Present k e [] = Present-first k e []
  least_used-Present k e ((j, f) ∷ m) = elim (Bool-cases (ltb f.hit_count e.hit_count)) [
    | inl fewer ↦
        rw fewer
          (Present-behind (least_used j f.hit_count m) k e ((j, f) ∷ m) (least_used-Present j f m))
    | inr no_fewer ↦
        rw no_fewer
          (Present-between (least_used k e.hit_count m) k j e f m (least_used-Present k e m))
  ]

  length-evict_one :
      (k : String) (e : CacheEntry R) (m : List (String × CacheEntry R))
      → length (evict_one ((k, e) ∷ m)) < length ((k, e) ∷ m)
  unfolding evict_one
  length-evict_one k e m =
      let (v, h) = least_used-Present k e m in
      length-erase_old (least_used k e.hit_count m) v ((k, e) ∷ m) h

  -- As many rounds as there are entries are enough.
  length-evict_loop :
      (rounds max_size : ℕ) (m : List (String × CacheEntry R))
      → length m ≤ rounds + max_size
      → length (evict_loop rounds max_size m) ≤ max_size
  unfolding evict_loop
  length-evict_loop zero max_size m h = omega arith
  length-evict_loop (suc rounds) max_size [] h = ground arith
  length-evict_loop (suc rounds) max_size ((k, e) ∷ m) h =
      ground
        (arith, length-evict_one k e m, length-evict_loop rounds max_size (evict_one ((k, e) ∷ m)))

  length-cleanup : (now : ℕ) (c : ResponseCache R) → length (cleanup now c).cache ≤ c.max_size
  unfolding cleanup
  length-cleanup now c =
      let left = erase_keys (expired_keys now c.ttl c.cache) c.cache in
      length-evict_loop (length left) c.max_size left (omega arith)

  abbrev Fits : ResponseCache R → Type 0
  Fits c = length c.cache ≤ c.max_size + 1

  length-hit :
      (k : String) (e : CacheEntry R) (c : ResponseCache R)
      → lookup k c.cache ≡ some e
      → length (hit k e c).cache ≡ length c.cache
  unfolding hit
  length-hit k e c here = length-insert_old k _ e c.cache here

  hit-max_size :
      (k : String) (e : CacheEntry R) (c : ResponseCache R) → (hit k e c).max_size ≡ c.max_size
  unfolding hit
  hit-max_size k e c = refl

  find-Fits : (now : ℕ) (k : String) (c : ResponseCache R) → Fits c → Fits (find now k c).1
  unfolding find miss
  find-Fits now k c h = elim (Option-cases (lookup k c.cache)) [
    | inl out ↦ ground arith
    | inr (e, here) ↦
        ground (arith, length-erase k c.cache, length-hit k e c here, hit-max_size k e c)
  ]

  abbrev new : R → ℕ → CacheEntry R
  new r now = record { response = r; timestamp = now; hit_count = 0 }

  insert-Fits :
      (now : ℕ) (k : String) (r : R) (c : ResponseCache R) → Fits c → Fits (insert now k r c)
  unfolding insert
  insert-Fits now k r c h = elim (Bool-cases (leb c.max_size (length c.cache))) [
    | inl full ↦ rw full (
        unfold cleanup in
        omega (arith, length-cleanup now c, length-insert k (new r now) (cleanup now c).cache))
    | inr room ↦ rw room (ground (arith, length-insert k (new r now) c.cache))
  ]

-- What a user of the cache does, each at its time.
pub data Call {ℓ} (R : Type ℓ) : Type ℓ where
  find_at : ℕ → String → Call R
  insert_at : ℕ → String → R → Call R
  cleanup_at : ℕ → Call R
  clear_all : Call R

module _ {ℓ} {R : Type ℓ} where
  unfoldable pub apply : Call R → ResponseCache R → ResponseCache R
  apply (find_at now k) c = (find now k c).1
  apply (insert_at now k r) c = insert now k r c
  apply (cleanup_at now) c = cleanup now c
  apply clear_all c = clear c

  unfoldable pub run : List (Call R) → ResponseCache R → ResponseCache R
  run [] c = c
  run (call ∷ calls) c = run calls (apply call c)

  unfoldable pub new_cache : ℕ → ℕ → ResponseCache R
  new_cache max_size ttl = record {
    cache = [];
    max_size = max_size;
    ttl = ttl;
    hits = 0;
    misses = 0;
  }

  apply-Fits : (call : Call R) (c : ResponseCache R) → Fits c → Fits (apply call c)
  unfolding apply cleanup clear
  apply-Fits (find_at now k) c h = find-Fits now k c h
  apply-Fits (insert_at now k r) c h = insert-Fits now k r c h
  apply-Fits (cleanup_at now) c h = omega (arith, length-cleanup now c)
  apply-Fits clear_all c h = omega arith

  apply-max_size : (call : Call R) (c : ResponseCache R) → (apply call c).max_size ≡ c.max_size
  unfolding apply find insert cleanup clear miss hit
  apply-max_size (find_at now k) c = ground arith
  apply-max_size (insert_at now k r) c = ground arith
  apply-max_size (cleanup_at now) c = refl
  apply-max_size clear_all c = refl

  run-Fits :
      (calls : List (Call R)) (c : ResponseCache R)
      → Fits c
      → Fits (run calls c) × ((run calls c).max_size ≡ c.max_size)
  unfolding run
  run-Fits [] c h = (h, refl)
  run-Fits (call ∷ calls) c h =
      let (fits, same) = run-Fits calls (apply call c) (apply-Fits call c h) in
      (fits, same ∙ apply-max_size call c)

  -- After any calls on a new cache it holds one entry more than its maximum at most, and no more than
  -- its maximum once it has been cleaned up, at whatever time.
  pub length-run :
      (max_size ttl : ℕ) (calls : List (Call R))
      → (length (run calls (new_cache max_size ttl)).cache ≤ max_size + 1)
        × ((now : ℕ) → length (cleanup now (run calls (new_cache max_size ttl))).cache ≤ max_size)
  unfolding new_cache
  length-run max_size ttl calls =
      let c = new_cache max_size ttl in
      let (fits, same) = run-Fits calls c (omega arith) in
      (omega (arith, same), λ now. omega (arith, same, length-cleanup now (run calls c)))
