-- ===== src/Ai/ResponseCache/Answers.antt =====
-- What the cache answers.
use block_type.Prelude.{
  ℕ, zero, suc, ◌-◌, ◌/◌, ◌≤◌, ◌≡◌, refl, ◌∙◌, inl, inr, false, Option, none, some, List, [], ◌∷◌,
  length, arith, Bool-cases, Option-cases, ltb, leb, if◌then◌else◌,
}
use Prim.Native.String.{String}
use block_type.Prelude.Maps
use block_type.Prelude.Maps.{Key, string_key, lookup, erase, lookup-insert, lookup-erase}
use block_type.Ai.ResponseCache.{
  CacheEntry, ResponseCache, increment, is_expired, miss, hit, find, expired_keys, erase_keys,
  evict_one, evict_loop, cleanup, insert, clear,
}
use block_type.Ai.ResponseCache.Size.{
  Call, find_at, insert_at, cleanup_at, clear_all, apply, run, new_cache,
}

module _ {ℓ} {R : Type ℓ} where
  -- The last insertion for each key since the last clearing: its time and response.
  unfoldable pub latest : Call R → (String → Option (ℕ × R)) → String → Option (ℕ × R)
  latest (find_at now k) s j = s j
  latest (insert_at now k r) s j = if string_key.same k j then some (now, r) else s j
  latest (cleanup_at now) s j = s j
  latest clear_all s j = none

  unfoldable pub latest_run : List (Call R) → (String → Option (ℕ × R)) → String → Option (ℕ × R)
  latest_run [] s = s
  latest_run (call ∷ calls) s = latest_run calls (latest call s)

  -- Every entry is the last insertion for its key.
  abbrev IsSound : List (String × CacheEntry R) → (String → Option (ℕ × R)) → Type ℓ
  IsSound m s =
      (k : String) (e : CacheEntry R) → lookup k m ≡ some e → s k ≡ some (e.timestamp, e.response)

  erase-IsSound :
      (k : String) (m : List (String × CacheEntry R)) (s : String → Option (ℕ × R))
      → IsSound m s
      → IsSound (erase k m) s
  erase-IsSound k m s sound j e h = sound j e (ground (arith, lookup-erase k j m))

  erase_keys-IsSound :
      (ks : List String) (m : List (String × CacheEntry R)) (s : String → Option (ℕ × R))
      → IsSound m s
      → IsSound (erase_keys ks m) s
  unfolding erase_keys
  erase_keys-IsSound [] m s sound = sound
  erase_keys-IsSound (k ∷ ks) m s sound =
      erase_keys-IsSound ks (erase k m) s (erase-IsSound k m s sound)

  evict_one-IsSound :
      (m : List (String × CacheEntry R)) (s : String → Option (ℕ × R))
      → IsSound m s
      → IsSound (evict_one m) s
  unfolding evict_one
  evict_one-IsSound [] s sound = sound
  evict_one-IsSound ((k, e) ∷ m) s sound = erase-IsSound _ ((k, e) ∷ m) s sound

  evict_loop-IsSound :
      (rounds max_size : ℕ) (m : List (String × CacheEntry R)) (s : String → Option (ℕ × R))
      → IsSound m s
      → IsSound (evict_loop rounds max_size m) s
  unfolding evict_loop
  evict_loop-IsSound zero max_size m s sound = sound
  evict_loop-IsSound (suc rounds) max_size m s sound = elim (Bool-cases (ltb max_size (length m))) [
    | inl over ↦
        rw over (evict_loop-IsSound rounds max_size (evict_one m) s (evict_one-IsSound m s sound))
    | inr fits ↦ rw fits sound
  ]

  cleanup-IsSound :
      (now : ℕ) (c : ResponseCache R) (s : String → Option (ℕ × R))
      → IsSound c.cache s
      → IsSound (cleanup now c).cache s
  unfolding cleanup
  cleanup-IsSound now c s sound =
      evict_loop-IsSound _ c.max_size _ s
        (erase_keys-IsSound (expired_keys now c.ttl c.cache) c.cache s sound)

  put-IsSound :
      (now : ℕ) (k : String) (r : R) (n : ℕ) (m : List (String × CacheEntry R))
      (s : String → Option (ℕ × R))
      → IsSound m s
      → IsSound
          (Maps.insert k (record { response = r; timestamp = now; hit_count = n }) m)
          (latest (insert_at now k r) s)
  unfolding latest
  put-IsSound now k r n m s sound j e h = ground (
    arith,
    sound j e,
    lookup-insert k j (record { response = r; timestamp = now; hit_count = n }) m,
  )

  hit-IsSound :
      (k : String) (e : CacheEntry R) (c : ResponseCache R) (s : String → Option (ℕ × R))
      → IsSound c.cache s
      → lookup k c.cache ≡ some e
      → IsSound (hit k e c).cache s
  unfolding hit
  hit-IsSound k e c s sound here j f h =
      let counted = record e { hit_count = increment e.hit_count } in
      ground (
        arith,
        sound j f,
        sound k e here,
        lookup-insert k j counted c.cache,
        string_key.same_iff k j,
      )

  find-IsSound :
      (now : ℕ) (k : String) (c : ResponseCache R) (s : String → Option (ℕ × R))
      → IsSound c.cache s
      → IsSound (find now k c).1.cache s
  unfolding find miss
  find-IsSound now k c s sound j f h = elim (Option-cases (lookup k c.cache)) [
    | inl out ↦ ground (arith, sound j f)
    | inr (e, here) ↦
        ground (arith, erase-IsSound k c.cache s sound j f, hit-IsSound k e c s sound here j f)
  ]

  insert-IsSound :
      (now : ℕ) (k : String) (r : R) (c : ResponseCache R) (s : String → Option (ℕ × R))
      → IsSound c.cache s
      → IsSound (insert now k r c).cache (latest (insert_at now k r) s)
  unfolding insert
  insert-IsSound now k r c s sound = elim (Bool-cases (leb c.max_size (length c.cache))) [
    | inl full ↦
        rw full (put-IsSound now k r 0 (cleanup now c).cache s (cleanup-IsSound now c s sound))
    | inr room ↦ rw room (put-IsSound now k r 0 c.cache s sound)
  ]

  apply-IsSound :
      (call : Call R) (c : ResponseCache R) (s : String → Option (ℕ × R))
      → IsSound c.cache s
      → IsSound (apply call c).cache (latest call s)
  unfolding apply latest lookup clear
  apply-IsSound (find_at now k) c s sound = find-IsSound now k c s sound
  apply-IsSound (insert_at now k r) c s sound = insert-IsSound now k r c s sound
  apply-IsSound (cleanup_at now) c s sound = cleanup-IsSound now c s sound
  apply-IsSound clear_all c s sound = λ j e h. absurd (ground arith)

  apply-ttl : (call : Call R) (c : ResponseCache R) → (apply call c).ttl ≡ c.ttl
  unfolding apply find insert cleanup clear miss hit
  apply-ttl (find_at now k) c = ground arith
  apply-ttl (insert_at now k r) c = ground arith
  apply-ttl (cleanup_at now) c = refl
  apply-ttl clear_all c = refl

  run-IsSound :
      (calls : List (Call R)) (c : ResponseCache R) (s : String → Option (ℕ × R))
      → IsSound c.cache s
      → IsSound (run calls c).cache (latest_run calls s) × ((run calls c).ttl ≡ c.ttl)
  unfolding run latest_run
  run-IsSound [] c s sound = (sound, refl)
  run-IsSound (call ∷ calls) c s sound =
      let (holds, same) =
        run-IsSound calls (apply call c) (latest call s) (apply-IsSound call c s sound) in
      (holds, same ∙ apply-ttl call c)

  -- An answer is an entry that has not expired.
  find-answer :
      (now : ℕ) (k : String) (r : R) (c : ResponseCache R)
      → (find now k c).0 ≡ some r
      → (e : CacheEntry R) × (lookup k c.cache ≡ some e)
        × (e.response ≡ r)
        × (is_expired now c.ttl e ≡ false)
  unfolding find
  find-answer now k r c h = elim (Option-cases (lookup k c.cache)) [
    | inl out ↦ absurd (ground arith)
    | inr (e, here) ↦ (e, here, ground arith, ground arith)
  ]

  find-insert :
      (now later : ℕ) (k : String) (r : R) (c : ResponseCache R)
      → (find later k (insert now k r c)).0
        ≡ (if ltb c.ttl ((later - now) / 1000000000) then none else some r)
  unfolding find insert is_expired cleanup
  find-insert now later k r c =
      let e : CacheEntry R = record { response = r; timestamp = now; hit_count = 0 } in
      ground (
        arith,
        string_key.same_iff k k,
        lookup-insert k k e c.cache,
        lookup-insert k k e (cleanup now c).cache,
      )

  -- After any calls on a new cache: where it answers a request, the answer is the response that was
  -- inserted last for the key since the last clearing, and no more whole seconds have passed since
  -- than the cache allows; and asked for a key right after an insertion for it, it answers with the
  -- inserted response, unless more seconds than that have passed, whatever had to be evicted.
  pub find-run :
      (max_size ttl : ℕ) (calls : List (Call R)) (now later : ℕ) (k : String) (r : R)
      → ((find later k (run calls (new_cache max_size ttl))).0 ≡ some r
          → (t : ℕ) × (latest_run calls (λ j. none) k ≡ some (t, r))
            × ((later - t) / 1000000000 ≤ ttl))
        × ((find later k (insert now k r (run calls (new_cache max_size ttl)))).0
            ≡ (if ltb ttl ((later - now) / 1000000000) then none else some r))
  unfolding new_cache is_expired lookup
  find-run max_size ttl calls now later k r =
      let c = new_cache max_size ttl in
      let (sound, same) = run-IsSound calls c (λ j. none) (λ j e h. absurd (ground arith)) in
      (
        λ h.
            let (e, here, answers, fresh) = find-answer later k r (run calls c) h in
            (e.timestamp, ground (arith, sound k e here), ground (arith, same)),
        ground (arith, same, find-insert now later k r (run calls c)),
      )
