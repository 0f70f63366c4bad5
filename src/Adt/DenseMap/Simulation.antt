-- ===== src/Adt/DenseMap/Simulation.antt =====
-- How a table of `DenseMap` stands for a finite map, and what each operation does to both.
use block_type.Prelude.{
  ℕ, ◌+◌, ◌-◌, ◌≤◌, ◌≡◌, ◌⊎◌, inl, inr, refl, sym, ap, ◌∙◌, none, some, List, [], arith, length,
  Option-cases, if◌then◌else◌, set,
}
use block_type.Prelude.Maps as Maps
use block_type.Prelude.Maps.{Key}
use block_type.Adt.DenseMap.{
  occupied, tombstone, DenseMap, at, find, add, subscript, assign, write, clear, lookup, value_of,
}
use block_type.Adt.DenseMap.Lookup.{option_ext, lookup_sound, find_sound}
use block_type.Adt.DenseMap.Grow.{IsValid}
use block_type.Adt.DenseMap.Calls.{Binds, add-Adds, Binds-lookup, Drops-lookup}
use block_type.Adt.DenseMap.Writes.{rewrite-Binds, erase-Drops, at-cleared, clear-IsValid}
use block_type.Adt.DenseMap.Assoc.{
  HasDistinctKeys, length-insert_new, length-insert_old, insert-HasDistinctKeys, length-erase,
  erase-HasDistinctKeys,
}

module _ {ℓ} {K V : Type ℓ} ⦃key : Key K⦄ (hash : K → ℕ) (fresh : V) where
  pub record Refines (m : DenseMap K V) (l : List (K × V)) : Type ℓ where
    pub valid : IsValid hash m
    pub same : (k : K) → lookup hash m k ≡ Maps.lookup k l
    pub sized : m.num_entries ≡ length l
    pub distinct : HasDistinctKeys l

  -- A table without entries.
  pub cleared :
      (m : DenseMap K V) → (length m.buckets ≡ 0) ⊎ (16 ≤ length m.buckets) → Refines (clear m) []
  unfolding clear Maps.lookup
  cleared m large =
      let valid = clear-IsValid hash m large in
      record {
        valid = valid;
        same = λ k.
            option_ext _ _
              (λ v h.
                let (i, e) = lookup_sound hash _ k v h in absurd (cc (e, at-cleared m.buckets i)))
              (λ v h. absurd (cc h));
        sized = refl;
        distinct = tt;
      }

  pub find-at_entry :
      (m : DenseMap K V) (k : K)
      → ((find hash m k ≡ none) × (lookup hash m k ≡ none))
        ⊎ ((i : ℕ) × (v : V) × (find hash m k ≡ some i)
            × (at m.buckets i ≡ occupied k v)
            × (lookup hash m k ≡ some v))
  unfolding lookup value_of
  find-at_entry m k = elim (Option-cases (find hash m k)) [
    | inl e ↦ inl (e, ground arith)
    | inr (i, e) ↦ let (v, f) = find_sound hash m k i e in inr (i, v, e, f, ground arith)
  ]

  Binds-Refines :
      (m m' : DenseMap K V) (l : List (K × V)) (k : K) (v : V)
      → Refines m l
      → Binds hash k v m m'
      → m'.num_entries ≡ length (Maps.insert k v l)
      → Refines m' (Maps.insert k v l)
  Binds-Refines m m' l k v r b n = record {
    valid = b.valid;
    same = λ j.
        Binds-lookup hash k v m m' r.valid b j
        ∙ ap (λ o. if key.same k j then some v else o) (r.same j)
        ∙ sym (Maps.lookup-insert k j v l);
    sized = n;
    distinct = insert-HasDistinctKeys k v l r.distinct;
  }

  pub add-Refines :
      (m : DenseMap K V) (l : List (K × V)) (k : K) (v : V)
      → Refines m l
      → find hash m k ≡ none
      → lookup hash m k ≡ none
      → Refines (add hash k v m).0 (Maps.insert k v l)
  add-Refines m l k v r missing none_in =
      let a = add-Adds hash m r.valid k v missing in
      Binds-Refines m (add hash k v m).0 l k v r a.binds
        (omega (arith, a.entries, r.sized, length-insert_new k v l (sym (r.same k) ∙ none_in)))

  -- The fresh value of a new key is overwritten.
  Binds-twice :
      (k : K) (u v : V) (m g m' : DenseMap K V)
      → Binds hash k u m g
      → Binds hash k v g m'
      → Binds hash k v m m'
  Binds-twice k u v m g m' a b = record {
    valid = b.valid;
    holds = λ j w. (
      λ h. elim ((b.holds j w).0 h) [
        | inl e ↦ inl e
        | inr (other, old) ↦ elim ((a.holds j w).0 old) [
          | inl (same, _) ↦ absurd (other same)
          | inr o ↦ inr o
        ]
      ],
      λ h. (b.holds j w).1 (elim h [
        | inl e ↦ inl e
        | inr (other, old) ↦ inr (other, (a.holds j w).1 (inr (other, old)))
      ]),
    );
  }

  assign_new :
      (m : DenseMap K V) (k : K) (v : V)
      → find hash m k ≡ none
      → at (add hash k fresh m).0.buckets (add hash k fresh m).1 ≡ occupied k fresh
      → assign hash fresh k v m ≡ record (add hash k fresh m).0 {
        buckets = set (add hash k fresh m).0.buckets (add hash k fresh m).1 (occupied k v);
      }
  unfolding assign subscript write
  assign_new m k v e stands = ground arith

  assign_old :
      (m : DenseMap K V) (k : K) (u v : V) (i : ℕ)
      → find hash m k ≡ some i
      → at m.buckets i ≡ occupied k u
      → assign hash fresh k v m ≡ record m { buckets = set m.buckets i (occupied k v) }
  unfolding assign subscript write
  assign_old m k u v i e here = ground arith

  pub assign-Refines :
      (m : DenseMap K V) (l : List (K × V)) (k : K) (v : V)
      → Refines m l
      → Refines (assign hash fresh k v m) (Maps.insert k v l)
  assign-Refines m l k v r = elim (find-at_entry m k) [
    | inl (e, none_in) ↦
        let a = add-Adds hash m r.valid k fresh e in
        let g = (add hash k fresh m).0 in
        let i = (add hash k fresh m).1 in
        rw (assign_new m k v e a.stands) (
          Binds-Refines m _ l k v r
            (Binds-twice k fresh v m g _ a.binds
              (rewrite-Binds hash g a.binds.valid k fresh i a.stands v))
            (omega (arith, a.entries, r.sized, length-insert_new k v l (sym (r.same k) ∙ none_in))))
    | inr (i, u, e, here, in_map) ↦ rw (assign_old m k u v i e here) (
        Binds-Refines m _ l k v r (rewrite-Binds hash m r.valid k u i here v)
          (omega (arith, r.sized, length-insert_old k v u l (sym (r.same k) ∙ in_map))))
  ]

  pub erase-Refines :
      (m : DenseMap K V) (l : List (K × V)) (k : K) (v : V) (i : ℕ)
      → Refines m l
      → at m.buckets i ≡ occupied k v
      → lookup hash m k ≡ some v
      → Refines
          (record m {
            buckets = set m.buckets i tombstone;
            num_entries = m.num_entries - 1;
            num_tombstones = m.num_tombstones + 1;
          })
          (Maps.erase k l)
  erase-Refines m l k v i r here in_map =
      let d = erase-Drops hash m r.valid k v i here in
      record {
        valid = d.valid;
        same = λ j.
            Drops-lookup hash k m _ r.valid d j
            ∙ ap (λ o. if key.same k j then none else o) (r.same j)
            ∙ sym (Maps.lookup-erase k j l);
        sized = omega (arith, r.sized, length-erase k v l r.distinct (sym (r.same k) ∙ in_map));
        distinct = erase-HasDistinctKeys k l r.distinct;
      }
