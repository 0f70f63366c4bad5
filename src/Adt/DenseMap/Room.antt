-- ===== src/Adt/DenseMap/Room.antt =====
-- `DenseMap` before a new entry: there is room for it afterwards, and the entries are the same.
use block_type.Prelude.{
  ℕ, ◌+◌, ◌*◌, ◌≤◌, ◌<◌, ◌≡◌, ◌↔◌, inl, inr, refl, false, List, [], ◌∷◌, arith, length,
  length-replicate, replicate, ◌==◌, ==_iff, leb, Bool-cases,
}
use block_type.Adt.DenseMap.{
  Bucket, empty, occupied, tombstone, DenseMap, at, move_all, grow, make_room,
}
use block_type.Adt.DenseMap.Probes.{IsTable}
use block_type.Adt.DenseMap.Table.{total, total-replicate, at-replicate, entry, used}
use block_type.Adt.DenseMap.Lookup.{Holds}
use block_type.Adt.DenseMap.Grow.{IsValid}
use block_type.Adt.DenseMap.Move.{Moved, move_all-Moved}

module _ {ℓ} {K V : Type ℓ} (hash : K → ℕ) where
  -- A table with no entry.
  pub all_empty-IsTable : (bs : List (Bucket K V)) → ((i : ℕ) → at bs i ≡ empty) → IsTable hash bs
  all_empty-IsTable bs none_in = record {
    reached = λ i k v e. absurd (cc (e, none_in i));
    unique = λ i j k v w e f. absurd (cc (e, none_in i));
  }

  total-entry-le : (bs : List (Bucket K V)) → total entry bs ≤ length bs
  unfolding total
  total-entry-le [] = omega arith
  total-entry-le (empty ∷ bs) = omega (arith, total-entry-le bs)
  total-entry-le (tombstone ∷ bs) = omega (arith, total-entry-le bs)
  total-entry-le (occupied k v ∷ bs) = omega (arith, total-entry-le bs)

  abbrev fresh : ℕ → DenseMap K V
  fresh n = record { buckets = replicate n empty; num_entries = 0; num_tombstones = 0 }

  fresh-IsValid : (n : ℕ) → 16 ≤ n → IsValid hash (fresh n)
  fresh-IsValid n h = record {
    table = all_empty-IsTable (replicate n empty) (at-replicate n);
    entries = total-replicate entry n refl;
    tombstones = omega (arith, total-replicate {V = V} used n refl);
    room = inr (omega (arith, length-replicate {A = Bucket K V} n empty));
  }

  module _ (m : DenseMap K V) (valid : IsValid hash m) where
    grow_to :
        (n : ℕ)
        → 16 ≤ n
        → length m.buckets < n
        → Moved hash m.buckets (fresh n) (move_all hash m.buckets (fresh n))
    grow_to n size larger =
        move_all-Moved hash m.buckets (fresh n) (fresh-IsValid n size) valid.table.unique
          (λ i k v w e h. cc (h.1, at-replicate n h.0))
          (omega (arith, total-entry-le m.buckets, length-replicate {A = Bucket K V} n empty))

    -- The same entries, and room for one more.
    pub record HasRoom (m' : DenseMap K V) : Type ℓ where
      pub valid' : IsValid hash m'
      pub holds : (j : K) (w : V) → Holds m'.buckets j w ↔ Holds m.buckets j w
      pub room' : m'.num_entries + m'.num_tombstones + 1 < length m'.buckets
      pub entries' : m'.num_entries ≡ m.num_entries

    grown :
        (n : ℕ) → 16 ≤ n → length m.buckets + 1 < n → HasRoom (move_all hash m.buckets (fresh n))
    grown n size larger =
        let d = grow_to n size (omega arith) in
        let below = total-entry-le m.buckets in
        record {
          valid' = d.valid;
          holds = λ j w. (
            λ h. elim ((d.holds j w).0 h) [
              | inl e ↦ absurd (cc (e.1, at-replicate n e.0))
              | inr a ↦ a
            ],
            λ h. (d.holds j w).1 (inr h),
          );
          room' = omega (
            arith,
            d.counted,
            d.same_tombstones,
            d.sized,
            below,
            length-replicate {A = Bucket K V} n empty,
          );
          entries' = omega (arith, d.counted, valid.entries);
        }

    pub make_room-HasRoom : HasRoom (make_room hash m)
    unfolding make_room grow
    make_room-HasRoom =
        let n = length m.buckets in
        elim (Bool-cases (leb (n * 3) ((m.num_entries + m.num_tombstones) * 4))) [
          | inl full ↦ rw full (elim valid.room [
            | inl z ↦ rw ((==_iff n 0).1 z) (grown 16 (omega arith) (omega arith))
            | inr (size, _) ↦
                let nonzero : (n == 0) ≡ false = ground arith in
                rw nonzero (grown (n * 2) (omega arith) (omega arith))
          ])
          | inr roomy ↦ rw roomy (elim valid.room [
            | inl z ↦ absurd (ground arith)
            | inr (size, _) ↦ record {
              valid' = valid;
              holds = λ j w. (λ h. h, λ h. h);
              room' = ground arith;
              entries' = refl;
            }
          ])
        ]
