-- ===== src/Adt/DenseMap/Move.antt =====
-- `grow` of `DenseMap` moves every entry to the larger table, and keeps the invariant.
use block_type.Prelude.{
  ℕ, zero, suc, ◌+◌, ◌<◌, ◌≡◌, ◌≢◌, ◌↔◌, ◌⊎◌, inl, inr, refl, sym, ap, subst, ◌∙◌, List, [], ◌∷◌,
  arith, length, length-set,
}
use block_type.Adt.DenseMap.{
  Bucket, empty, occupied, tombstone, DenseMap, at, place, insert_into, move_all,
}
use block_type.Adt.DenseMap.Probes.{IsPlace}
use block_type.Adt.DenseMap.Table.{total, entry, some_empty, index_at_onto}
use block_type.Adt.DenseMap.Lookup.{Holds}
use block_type.Adt.DenseMap.Grow.{IsValid, place-IsValid, place-Holds, insert_into-place}

suc_ne_zero : {n : ℕ} → suc n ≢ 0
suc_ne_zero e = omega arith

module _ {ℓ} {K V : Type ℓ} where
  -- No two buckets have the same key.
  abbrev pub HasUniqueKeys : List (Bucket K V) → Type ℓ
  HasUniqueKeys bs =
      (i j : ℕ) (k : K) (v w : V) → at bs i ≡ occupied k v → at bs j ≡ occupied k w → i ≡ j

  abbrev pub AreDisjoint : List (Bucket K V) → List (Bucket K V) → Type ℓ
  AreDisjoint old new = (i : ℕ) (k : K) (v w : V) → at old i ≡ occupied k v → ¬ Holds new k w

  unique_tail :
      (b : Bucket K V) (bs : List (Bucket K V)) → HasUniqueKeys (b ∷ bs) → HasUniqueKeys bs
  unique_tail b bs u i j k v w e f = omega (arith, u (suc i) (suc j) k v w e f)

module _ {ℓ} {K V : Type ℓ} (hash : K → ℕ) where
  pub insert_into_lem :
      (k : K) (v : V) (m : DenseMap K V)
      → IsValid hash m
      → m.num_entries + m.num_tombstones < length m.buckets
      → (r : ℕ) × IsPlace hash m.buckets k r
        × (insert_into hash k v (length m.buckets) 0 m ≡ place k v r m)
  insert_into_lem k v m valid room =
      let (i, lt, e) = some_empty m.buckets (omega (arith, valid.tombstones)) in
      let (last, in_range, hits) = index_at_onto hash (length m.buckets) k i lt in
      insert_into-place hash m k v last in_range (rw hits e) (length m.buckets) 0 (omega arith)
        (omega arith) (λ q h. absurd (omega arith))

  -- All of `old` has been added to `m`.
  pub record Moved (old : List (Bucket K V)) (m m' : DenseMap K V) : Type ℓ where
    pub valid : IsValid hash m'
    pub holds : (j : K) (w : V) → Holds m'.buckets j w ↔ (Holds m.buckets j w ⊎ Holds old j w)
    pub counted : m'.num_entries ≡ m.num_entries + total entry old
    pub same_tombstones : m'.num_tombstones ≡ m.num_tombstones
    pub sized : length m'.buckets ≡ length m.buckets

  Moved-skip :
      (b : Bucket K V) (old : List (Bucket K V)) (m m' : DenseMap K V)
      → entry b ≡ 0
      → Moved old m m'
      → Moved (b ∷ old) m m'
  unfolding total
  Moved-skip b old m m' e d = record {
    valid = d.valid;
    holds = λ j w. (
      λ h. elim ((d.holds j w).0 h) [ inl a ↦ inl a | inr (i, f) ↦ inr (suc i, f) ],
      λ h. elim h [
        | inl a ↦ (d.holds j w).1 (inl a)
        | inr (zero, f) ↦ absurd (ground arith)
        | inr (suc i, f) ↦ (d.holds j w).1 (inr (i, f))
      ],
    );
    counted = omega (arith, d.counted);
    same_tombstones = d.same_tombstones;
    sized = d.sized;
  }

  Moved-place :
      (k : K) (v : V) (r : ℕ) (old : List (Bucket K V)) (m m' : DenseMap K V)
      → IsPlace hash m.buckets k r
      → Moved old (place k v r m) m'
      → Moved (occupied k v ∷ old) m m'
  unfolding total place
  Moved-place k v r old m m' p d = record {
    valid = d.valid;
    holds = λ j w. (
      λ h. elim ((d.holds j w).0 h) [
        | inl a ↦ elim ((place-Holds hash m k v r p j w).0 a) [
          | inl (x, y) ↦ inr (0, cc (x, y))
          | inr b ↦ inl b
        ]
        | inr (i, f) ↦ inr (suc i, f)
      ],
      λ h. (d.holds j w).1 (elim h [
        | inl a ↦ inl ((place-Holds hash m k v r p j w).1 (inr a))
        | inr (zero, f) ↦ inl ((place-Holds hash m k v r p j w).1 (inl (cc f, cc f)))
        | inr (suc i, f) ↦ inr (i, f)
      ]),
    );
    counted = omega (arith, d.counted);
    same_tombstones = d.same_tombstones;
    sized = d.sized ∙ length-set m.buckets r (occupied k v);
  }

  pub move_all-Moved :
      (old : List (Bucket K V)) (m : DenseMap K V)
      → IsValid hash m
      → HasUniqueKeys old
      → AreDisjoint old m.buckets
      → m.num_entries + m.num_tombstones + total entry old < length m.buckets
      → Moved old m (move_all hash old m)
  unfolding move_all total place
  move_all-Moved [] m valid u fresh room = record {
    valid = valid;
    holds = λ j w. (λ h. inl h, λ h. elim h [ inl a ↦ a | inr (i, f) ↦ absurd (cc f) ]);
    counted = omega arith;
    same_tombstones = refl;
    sized = refl;
  }
  move_all-Moved (empty ∷ old) m valid u fresh room =
      Moved-skip empty old m (move_all hash old m) refl (
        move_all-Moved old m valid (unique_tail empty old u) (λ i k v w e. fresh (suc i) k v w e)
          (omega arith))
  move_all-Moved (tombstone ∷ old) m valid u fresh room =
      Moved-skip tombstone old m (move_all hash old m) refl (
        move_all-Moved old m valid (unique_tail tombstone old u)
          (λ i k v w e. fresh (suc i) k v w e) (omega arith))
  move_all-Moved (occupied k v ∷ old) m valid u fresh room =
      let (r, p, same) = insert_into_lem k v m valid (omega arith) in
      let next =
        move_all-Moved old (place k v r m)
          (place-IsValid hash m valid k v (λ i w e. fresh 0 k v w refl (i, e)) r p (omega arith))
          (unique_tail (occupied k v) old u)
          (λ i j w w' e h. elim ((place-Holds hash m k v r p j w').0 h) [
            | inl (a, _) ↦
                absurd (suc_ne_zero (u (suc i) 0 k w v (e ∙ ap (λ (x : K). occupied x w) a) refl))
            | inr old_entry ↦ fresh (suc i) j w w' e old_entry
          ])
          (omega (arith, length-set m.buckets r (occupied k v))) in
      subst (λ x. Moved (occupied k v ∷ old) m (move_all hash old x)) (sym same)
        (Moved-place k v r old m (move_all hash old (place k v r m)) p next)
