-- ===== src/Adt/DenseMap/Table.antt =====
-- Tables of buckets under a write to one bucket, and their counts.
use block_type.Prelude.{
  ℕ, zero, suc, ◌+◌, ◌-◌, ◌%◌, ◌<◌, ◌≡◌, ◌≢◌, ◌⊎◌, inl, inr, refl, sym, ap, subst, ◌∙◌, List, [],
  ◌∷◌, arith, length, set, length-set, ℕ_discrete, dec_lt, replicate,
}
use native.Mathlib.Nat.{mod-eq_of_lt, mod-eq-sub-mod, mod-lt}
use block_type.Adt.DenseMap.{Bucket, empty, occupied, tombstone, at, index_at}
use block_type.Adt.DenseMap.Probes.{Reaches, IsTable}

module _ {ℓ} {K V : Type ℓ} where
  pub at-set_self :
      (bs : List (Bucket K V)) (i : ℕ) (b : Bucket K V) → i < length bs → at (set bs i b) i ≡ b
  at-set_self [] i b h = absurd (omega arith)
  at-set_self (x ∷ bs) zero b h = refl
  at-set_self (x ∷ bs) (suc i) b h = at-set_self bs i b (omega arith)

  pub at-set_ne :
      (bs : List (Bucket K V)) (i j : ℕ) (b : Bucket K V) → i ≢ j → at (set bs i b) j ≡ at bs j
  at-set_ne [] i j b h = refl
  at-set_ne (x ∷ bs) zero zero b h = absurd (h refl)
  at-set_ne (x ∷ bs) zero (suc j) b h = refl
  at-set_ne (x ∷ bs) (suc i) zero b h = refl
  at-set_ne (x ∷ bs) (suc i) (suc j) b h = at-set_ne bs i j b (λ e. h (ap suc e))

  pub at-set_full :
      (bs : List (Bucket K V)) (i j : ℕ) (b : Bucket K V)
      → b ≢ empty
      → at bs j ≢ empty
      → at (set bs i b) j ≢ empty
  at-set_full [] i j b full h = h
  at-set_full (x ∷ bs) zero zero b full h = full
  at-set_full (x ∷ bs) zero (suc j) b full h = h
  at-set_full (x ∷ bs) (suc i) zero b full h = h
  at-set_full (x ∷ bs) (suc i) (suc j) b full h = at-set_full bs i j b full h

  -- What stands in a bucket after a write.
  pub at-set_view :
      (bs : List (Bucket K V)) (i j : ℕ) (b : Bucket K V)
      → i < length bs
      → {c : Bucket K V} → at (set bs i b) j ≡ c
      → ((j ≡ i) × (b ≡ c)) ⊎ (at bs j ≡ c)
  at-set_view bs i j b h e = elim (ℕ_discrete i j) [
    | yes same ↦ inl (sym same, sym (ap (at (set bs i b)) (sym same) ∙ at-set_self bs i b h) ∙ e)
    | no other ↦ inr (sym (at-set_ne bs i j b other) ∙ e)
  ]

  pub at_lt :
      (bs : List (Bucket K V)) (i : ℕ) (k : K) (v : V) → at bs i ≡ occupied k v → i < length bs
  at_lt [] i k v e = cc
  at_lt (x ∷ bs) zero k v e = omega arith
  at_lt (x ∷ bs) (suc i) k v e = omega (arith, at_lt bs i k v e)

  -- A weight of the buckets, summed over the table.
  unfoldable pub total : (Bucket K V → ℕ) → List (Bucket K V) → ℕ
  total f [] = 0
  total f (b ∷ bs) = f b + total f bs

  pub total-set :
      (f : Bucket K V → ℕ) (bs : List (Bucket K V)) (i : ℕ) (b : Bucket K V)
      → i < length bs
      → total f (set bs i b) + f (at bs i) ≡ total f bs + f b
  unfolding total
  total-set f [] i b h = absurd (omega arith)
  total-set f (x ∷ bs) zero b h = omega arith
  total-set f (x ∷ bs) (suc i) b h = omega (arith, total-set f bs i b (omega arith))

  abbrev pub entry : Bucket K V → ℕ
  entry empty = 0
  entry tombstone = 0
  entry (occupied k v) = 1

  abbrev pub used : Bucket K V → ℕ
  used empty = 0
  used tombstone = 1
  used (occupied k v) = 1

  -- Where not every bucket is used, one is empty.
  pub some_empty :
      (bs : List (Bucket K V))
      → total used bs < length bs
      → (i : ℕ) × (i < length bs) × (at bs i ≡ empty)
  unfolding total
  some_empty [] h = absurd (omega arith)
  some_empty (empty ∷ bs) h = (0, omega arith, refl)
  some_empty (tombstone ∷ bs) h =
      let (i, lt, e) = some_empty bs (omega arith) in (suc i, omega arith, e)
  some_empty (occupied k v ∷ bs) h =
      let (i, lt, e) = some_empty bs (omega arith) in (suc i, omega arith, e)

  pub at-replicate : (n i : ℕ) → at (replicate {A = Bucket K V} n empty) i ≡ empty
  at-replicate zero i = refl
  at-replicate (suc n) zero = refl
  at-replicate (suc n) (suc i) = at-replicate n i

  pub total-replicate : (f : Bucket K V → ℕ) (n : ℕ) → f empty ≡ 0 → total f (replicate n empty) ≡ 0
  unfolding total
  total-replicate f zero e = refl
  total-replicate f (suc n) e = omega (arith, total-replicate f n e)

module _ {ℓ} {K : Type ℓ} (hash : K → ℕ) where
  -- The path of a key visits every bucket.
  pub index_at_onto :
      (n : ℕ) (k : K) (i : ℕ) → i < n → (p : ℕ) × (p < n) × (index_at hash n k p ≡ i)
  unfolding index_at
  index_at_onto n k i h =
      let home = hash k % n in
      let below : home < n = mod-lt (hash k) (omega arith) in
      elim (dec_lt i home) [
        | yes l ↦ (
          i + n - home,
          omega arith,
          (let e : home + (i + n - home) ≡ i + n = omega arith in
              rw e (
                mod-eq-sub-mod {n = i + n} {m = n} (omega arith)
                ∙ (let back : i + n - n ≡ i = omega arith in rw back (mod-eq_of_lt h)))),
        )
        | no g ↦ (
          i - home,
          omega arith,
          (let e : home + (i - home) ≡ i = omega arith in rw e (mod-eq_of_lt h)),
        )
      ]

module _ {ℓ} {K V : Type ℓ} (hash : K → ℕ) where
  -- A write that leaves no bucket empty breaks no path.
  pub Reaches-set :
      (bs : List (Bucket K V)) (j : ℕ) (b : Bucket K V)
      → b ≢ empty
      → (k : K) (i : ℕ) → Reaches hash bs k i
      → Reaches hash (set bs j b) k i
  Reaches-set bs j b full k i r = record {
    probe = r.probe;
    within = omega (arith, length-set bs j b, r.within);
    hits = rw (length-set bs j b) r.hits;
    passed = λ q h.
        rw (length-set bs j b)
          (at-set_full bs j (index_at hash (length bs) k q) b full (r.passed q h));
  }

  -- A write that keeps the table well formed: what it writes stands on its key's path, and no other
  -- bucket has the key.
  pub IsTable-set :
      (bs : List (Bucket K V))
      → IsTable hash bs
      → (r : ℕ) (b : Bucket K V) → r < length bs
      → b ≢ empty
      → ((k : K) (v : V)
          → b ≡ occupied k v
          → Reaches hash bs k r × ((i : ℕ) (w : V) → at bs i ≡ occupied k w → i ≡ r))
      → IsTable hash (set bs r b)
  IsTable-set bs t r b in_range full fits = record {
    reached = λ i k v e. Reaches-set bs r b full k i (elim (at-set_view bs r i b in_range e) [
      | inl (same, now) ↦ subst (Reaches hash bs k) (sym same) (fits k v now).0
      | inr old ↦ t.reached i k v old
    ]);
    unique = λ i j k v w e f. elim (at-set_view bs r i b in_range e) [
      | inl (same, now) ↦ elim (at-set_view bs r j b in_range f) [
        | inl (same', _) ↦ same ∙ sym same'
        | inr old ↦ same ∙ sym ((fits k v now).1 j w old)
      ]
      | inr old ↦ elim (at-set_view bs r j b in_range f) [
        | inl (same, now) ↦ (fits k w now).1 i v old ∙ sym same
        | inr old' ↦ t.unique i j k v w old old'
      ]
    ];
  }
