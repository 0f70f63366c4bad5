-- ===== src/Adt/DenseMap/Calls.antt =====
-- What `insert`, `operator[]`, `erase` and `clear` of `DenseMap` do to the entries.
use block_type.Prelude.{
  ℕ, ◌+◌, ◌≡◌, ◌≢◌, ◌↔◌, ◌⊎◌, inl, inr, refl, sym, ap, ◌∙◌, false, none, some, arith, Bool-cases,
  if◌then◌else◌,
}
use block_type.Prelude.Maps.{Key}
use block_type.Adt.DenseMap.{
  occupied, DenseMap, at, place, make_room, lookup_bucket_for, find, add, lookup,
}
use block_type.Adt.DenseMap.Table.{at-set_self}
use block_type.Adt.DenseMap.Lookup.{
  Holds, option_ext, bucket-IsPlace, find-none, lookup_sound, lookup_complete,
}
use block_type.Adt.DenseMap.Grow.{IsValid, place-lt, place-IsValid, place-Holds}
use block_type.Adt.DenseMap.Room.{make_room-HasRoom}

different {ℓ} : {K : Type ℓ} ⦃key : Key K⦄ (j k : K) → key.same k j ≡ false → j ≢ k
different ⦃key⦄ j k s e = cc (s, (key.same_iff k j).1 (sym e))

module _ {ℓ} {K V : Type ℓ} (hash : K → ℕ) where
  -- `m'` is `m` with the value of `k` replaced or added: the entries of other keys stay.
  pub record Binds (k : K) (v : V) (m m' : DenseMap K V) : Type ℓ where
    pub valid : IsValid hash m'
    pub holds :
        (j : K) (w : V)
        → Holds m'.buckets j w ↔ (((j ≡ k) × (w ≡ v)) ⊎ ((j ≢ k) × Holds m.buckets j w))

  pub record Drops (k : K) (m m' : DenseMap K V) : Type ℓ where
    pub valid : IsValid hash m'
    pub holds : (j : K) (w : V) → Holds m'.buckets j w ↔ ((j ≢ k) × Holds m.buckets j w)

module _ {ℓ} {K V : Type ℓ} ⦃key : Key K⦄ (hash : K → ℕ) where
  lookup_iff :
      (m : DenseMap K V)
      → IsValid hash m
      → (k : K) (v : V) → (lookup hash m k ≡ some v) ↔ Holds m.buckets k v
  lookup_iff m valid k v = (lookup_sound hash m k v, lookup_complete hash m valid.table k v)

  pub Binds-lookup :
      (k : K) (v : V) (m m' : DenseMap K V)
      → IsValid hash m
      → Binds hash k v m m'
      → (j : K) → lookup hash m' j ≡ (if key.same k j then some v else lookup hash m j)
  Binds-lookup k v m m' valid b j = elim (Bool-cases (key.same k j)) [
    | inl s ↦
        rw s (
          (lookup_iff m' b.valid j v).1
            ((b.holds j v).1 (inl (sym ((key.same_iff k j).0 s), refl))))
    | inr s ↦ rw s (
        option_ext _ _
          (λ w h. elim ((b.holds j w).0 ((lookup_iff m' b.valid j w).0 h)) [
            | inl (same, _) ↦ absurd (different j k s same)
            | inr (_, old) ↦ (lookup_iff m valid j w).1 old
          ])
          (λ w h.
            (lookup_iff m' b.valid j w).1
              ((b.holds j w).1 (inr (different j k s, (lookup_iff m valid j w).0 h)))))
  ]

  pub Drops-lookup :
      (k : K) (m m' : DenseMap K V)
      → IsValid hash m
      → Drops hash k m m'
      → (j : K) → lookup hash m' j ≡ (if key.same k j then none else lookup hash m j)
  Drops-lookup k m m' valid d j = elim (Bool-cases (key.same k j)) [
    | inl s ↦ rw s (
        option_ext _ _
          (λ w h.
            absurd (
              ((d.holds j w).0 ((lookup_iff m' d.valid j w).0 h)).0 (sym ((key.same_iff k j).0 s))))
          (λ w h. absurd (cc h)))
    | inr s ↦ rw s (
        option_ext _ _
          (λ w h. (lookup_iff m valid j w).1 ((d.holds j w).0 ((lookup_iff m' d.valid j w).0 h)).1)
          (λ w h.
            (lookup_iff m' d.valid j w).1
              ((d.holds j w).1 (different j k s, (lookup_iff m valid j w).0 h))))
  ]

  module _ (m : DenseMap K V) (valid : IsValid hash m) where
    -- A new key: its bucket, and one entry more.
    pub record Adds (k : K) (v : V) (m' : DenseMap K V) (i : ℕ) : Type ℓ where
      pub binds : Binds hash k v m m'
      pub stands : at m'.buckets i ≡ occupied k v
      pub entries : m'.num_entries ≡ m.num_entries + 1

    pub add-Adds :
        (k : K) (v : V) → find hash m k ≡ none → Adds k v (add hash k v m).0 (add hash k v m).1
    unfolding add place
    add-Adds k v missing =
        let g = make_room hash m in
        let room = make_room-HasRoom hash m valid in
        let absent : (i : ℕ) (w : V) → at g.buckets i ≢ occupied k w = λ i w e.
          let (i', e') = (room.holds k w).0 (i, e) in
          find-none hash m valid.table k missing i' w e' in
        let r = lookup_bucket_for hash g.buckets k in
        let p =
          bucket-IsPlace hash g.buckets k absent
            (omega (arith, room.valid'.tombstones, room.room')) in
        record {
          binds = record {
            valid = place-IsValid hash g room.valid' k v absent r p room.room';
            holds = λ j w. (
              λ h. elim ((place-Holds hash g k v r p j w).0 h) [
                | inl new ↦ inl new
                | inr old ↦ inr (
                  λ same. absent old.0 w (old.1 ∙ ap (λ (x : K). occupied x w) same),
                  (room.holds j w).0 old,
                )
              ],
              λ h.
                  (place-Holds hash g k v r p j w).1
                    (elim h [ inl new ↦ inl new | inr (_, old) ↦ inr ((room.holds j w).1 old) ]),
            );
          };
          stands = at-set_self g.buckets r (occupied k v) (place-lt hash g p);
          entries = omega (arith, room.entries');
        }
