-- ===== src/Adt/DenseMap/Lookup.antt =====
-- What `find` answers on a well-formed table.
use block_type.Prelude.{
  ℕ, ◌<◌, ◌≡◌, ◌≢◌, inl, inr, refl, sym, Option, none, some, List, arith, length, ◌==◌, ==_iff,
  Bool-cases, Option-cases,
}
use block_type.Prelude.Maps.{Key}
use block_type.Adt.DenseMap.{
  Bucket, occupied, DenseMap, at, lookup_bucket_for, find, value_of, lookup,
}
use block_type.Adt.DenseMap.Probes.{IsTable, IsPlace, Bucket-cases, probe_found, probe_absent}
use block_type.Adt.DenseMap.Table.{at_lt, some_empty, total, used, index_at_onto}

-- Some bucket holds the entry.
abbrev pub Holds {ℓ} : {K V : Type ℓ} → List (Bucket K V) → K → V → Type ℓ
Holds buckets k v = (i : ℕ) × (at buckets i ≡ occupied k v)

pub option_ext {ℓ} :
    {A : Type ℓ} (a b : Option A)
    → ((x : A) → a ≡ some x → b ≡ some x)
    → ((x : A) → b ≡ some x → a ≡ some x)
    → a ≡ b
option_ext none none f g = refl
option_ext none (some y) f g = cc (g y refl)
option_ext (some x) none f g = cc (f x refl)
option_ext (some x) (some y) f g = sym (f x refl)

module _ {ℓ} {K V : Type ℓ} ⦃key : Key K⦄ (hash : K → ℕ) where
  module _ (buckets : List (Bucket K V)) where
    pub bucket_found :
        IsTable hash buckets
        → (k : K) (v : V) (i : ℕ) → at buckets i ≡ occupied k v
        → lookup_bucket_for hash buckets k ≡ i
    unfolding lookup_bucket_for
    bucket_found t k v i e = elim (Bool-cases (length buckets == 0)) [
      | inl z ↦ absurd (omega (arith, at_lt buckets i k v e, (==_iff _ _).0 z))
      | inr nz ↦ rw nz (
          probe_found hash buckets t k v i e (t.reached i k v e) (length buckets) 0 (length buckets)
            (omega arith) (omega arith))
    ]

    -- Where the key is not there and a bucket is empty, the place for the key is found.
    pub bucket-IsPlace :
        (k : K)
        → ((i : ℕ) (v : V) → at buckets i ≢ occupied k v)
        → total used buckets < length buckets
        → IsPlace hash buckets k (lookup_bucket_for hash buckets k)
    unfolding lookup_bucket_for
    bucket-IsPlace k absent room =
        let (i, lt, e) = some_empty buckets room in
        let (last, in_range, hits) = index_at_onto hash (length buckets) k i lt in
        elim (Bool-cases (length buckets == 0)) [
          | inl z ↦ absurd (omega (arith, lt, (==_iff _ _).0 z))
          | inr nz ↦ rw nz (
              probe_absent hash buckets k absent last in_range (rw hits e) (length buckets) 0
                (length buckets) (omega arith) (omega arith) (λ q h. absurd (omega arith))
                (inl refl))
        ]

  module _ (m : DenseMap K V) where
    pub find_sound :
        (k : K) (i : ℕ) → find hash m k ≡ some i → (v : V) × (at m.buckets i ≡ occupied k v)
    unfolding find
    find_sound k i h =
        let idx = lookup_bucket_for hash m.buckets k in
        elim (Bool-cases (length m.buckets == 0)) [
          | inl z ↦ absurd (ground arith)
          | inr nz ↦ elim (Bucket-cases (at m.buckets idx)) [
            | inl e ↦ absurd (ground arith)
            | inr (inl e) ↦ absurd (ground arith)
            | inr (inr (j, v, e)) ↦ elim (Bool-cases (key.same j k)) [
              | inl s ↦ (v, ground (arith, key.same_iff j k))
              | inr s ↦ absurd (ground arith)
            ]
          ]
        ]

    pub find_complete :
        IsTable hash m.buckets
        → (k : K) (v : V) (i : ℕ) → at m.buckets i ≡ occupied k v
        → find hash m k ≡ some i
    unfolding find
    find_complete t k v i e =
        ground (arith, bucket_found m.buckets t k v i e, at_lt m.buckets i k v e, key.same_iff k k)

    pub lookup_sound : (k : K) (v : V) → lookup hash m k ≡ some v → Holds m.buckets k v
    unfolding lookup value_of
    lookup_sound k v h = elim (Option-cases (find hash m k)) [
      | inl e ↦ absurd (ground arith)
      | inr (i, e) ↦ (i, (let (w, f) = find_sound k i e in ground arith))
    ]

    pub lookup_complete :
        IsTable hash m.buckets → (k : K) (v : V) → Holds m.buckets k v → lookup hash m k ≡ some v
    unfolding lookup value_of
    lookup_complete t k v (i, e) = ground (arith, find_complete t k v i e)

    pub find-none :
        IsTable hash m.buckets
        → (k : K) → find hash m k ≡ none
        → (i : ℕ) (v : V) → at m.buckets i ≢ occupied k v
    find-none t k h i v e = cc (h, find_complete t k v i e)
