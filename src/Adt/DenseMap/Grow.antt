-- ===== src/Adt/DenseMap/Grow.antt =====
-- The invariant of `DenseMap`, and that it survives a new entry and the growing of the table.
use block_type.Prelude.{
  ℕ, zero, suc, ◌+◌, ◌≤◌, ◌<◌, ◌≡◌, ◌≢◌, ◌↔◌, ◌⊎◌, inl, inr, refl, ap, subst, ◌∙◌, arith, length,
  length-set,
}
use block_type.Adt.DenseMap.{
  Bucket, empty, occupied, tombstone, DenseMap, at, index_at, place, insert_into,
}
use block_type.Adt.DenseMap.Probes.{
  IsFree, Reaches, IsTable, IsPlace, Bucket-cases, index_at-lt, eq_or_lt,
}
use block_type.Adt.DenseMap.Table.{
  at-set_self, at-set_ne, at-set_view, total, total-set, entry, used, IsTable-set,
}
use block_type.Adt.DenseMap.Lookup.{Holds}

-- `NumTombstones` may count too many: a new entry in a tombstone's place does not lower it.
pub record IsValid {ℓ} {K V : Type ℓ} (hash : K → ℕ) (m : DenseMap K V) : Type ℓ where
  pub table : IsTable hash m.buckets
  pub entries : total entry m.buckets ≡ m.num_entries
  pub tombstones : total used m.buckets ≤ m.num_entries + m.num_tombstones
  pub room :
      (length m.buckets ≡ 0)
      ⊎ ((16 ≤ length m.buckets) × (m.num_entries + m.num_tombstones < length m.buckets))

module _ {ℓ} {K V : Type ℓ} where
  used_of_free : (b : Bucket K V) → IsFree b → (used b ≤ 1) × (entry b ≡ 0)
  used_of_free empty h = omega arith
  used_of_free tombstone h = omega arith
  used_of_free (occupied k v) h = absurd h

  not_occupied : (b : Bucket K V) (k : K) (v : V) → IsFree b → b ≢ occupied k v
  not_occupied empty k v h e = cc
  not_occupied tombstone k v h e = cc
  not_occupied (occupied j w) k v h e = h

module _ {ℓ} {K V : Type ℓ} (hash : K → ℕ) (m : DenseMap K V) where
  pub place-lt : {k : K} {r : ℕ} → IsPlace hash m.buckets k r → r < length m.buckets
  place-lt {k} {r} p =
      subst (λ i. i < length m.buckets) p.reached.hits
        (index_at-lt hash (length m.buckets) k p.reached.probe (omega (arith, p.reached.within)))

  -- A new entry in the place that was found for its key.
  pub place-IsValid :
      IsValid hash m
      → (k : K) (v : V) → ((i : ℕ) (w : V) → at m.buckets i ≢ occupied k w)
      → (r : ℕ) → IsPlace hash m.buckets k r
      → m.num_entries + m.num_tombstones + 1 < length m.buckets
      → IsValid hash (place k v r m)
  unfolding place
  place-IsValid valid k v absent r p room =
      let lt = place-lt p in
      let old = used_of_free (at m.buckets r) p.free in
      record {
        table =
            IsTable-set hash m.buckets valid.table r (occupied k v) lt (λ e. cc e)
              (λ k' v' e. (
                subst (λ x. Reaches hash m.buckets x r) (cc e) p.reached,
                λ i w f. absurd (absent i w (f ∙ ap (λ (x : K). occupied x w) (cc e))),
              ));
        entries = omega (arith, valid.entries, total-set entry m.buckets r (occupied k v) lt, old);
        tombstones =
            omega (arith, valid.tombstones, total-set used m.buckets r (occupied k v) lt, old);
        room = elim valid.room [
          | inl z ↦ absurd (omega (arith, lt))
          | inr (size, _) ↦ inr (omega (arith, length-set m.buckets r (occupied k v)))
        ];
      }

  -- What the table holds then.
  pub place-Holds :
      (k : K) (v : V) (r : ℕ)
      → IsPlace hash m.buckets k r
      → (j : K) (w : V)
      → Holds (place k v r m).buckets j w ↔ (((j ≡ k) × (w ≡ v)) ⊎ Holds m.buckets j w)
  unfolding place
  place-Holds k v r p j w =
      let lt = place-lt p in
      (
        λ (i, e). elim (at-set_view m.buckets r i (occupied k v) lt e) [
          | inl (_, same) ↦ inl (cc same, cc same)
          | inr old ↦ inr (i, old)
        ],
        λ h. elim h [
          | inl (a, b) ↦ (r, at-set_self m.buckets r (occupied k v) lt ∙ cc (a, b))
          | inr (i, e) ↦ (
            i,
            at-set_ne m.buckets r i (occupied k v)
                  (λ same. not_occupied (at m.buckets r) j w p.free (ap (at m.buckets) same ∙ e))
                ∙ e,
          )
        ],
      )

  -- `insertInto` finds a place.
  pub insert_into-place :
      (k : K) (v : V) (last : ℕ)
      → last < length m.buckets
      → at m.buckets (index_at hash (length m.buckets) k last) ≡ empty
      → (rounds p : ℕ) → rounds + p ≡ length m.buckets
      → p ≤ last
      → ((q : ℕ) → q < p → at m.buckets (index_at hash (length m.buckets) k q) ≢ empty)
      → (r : ℕ) × IsPlace hash m.buckets k r × (insert_into hash k v rounds p m ≡ place k v r m)
  unfolding insert_into
  insert_into-place k v last in_range end zero p e le passed = absurd (omega arith)
  insert_into-place k v last in_range end (suc rounds) p e le passed =
      let idx = index_at hash (length m.buckets) k p in
      let here : IsFree (at m.buckets idx) → IsPlace hash m.buckets k idx = λ free. record {
        reached = record { probe = p; within = omega arith; hits = refl; passed = passed };
        free = free;
      } in
      elim (Bucket-cases (at m.buckets idx)) [
        | inl z ↦ (idx, here (rw z tt), ground arith)
        | inr (inl z) ↦ (idx, here (rw z tt), ground arith)
        | inr (inr (j, w, z)) ↦
            let (r, found, same) =
              insert_into-place k v last in_range end rounds (p + 1) (omega arith)
                (elim (eq_or_lt p last le) [
                  | inl l ↦ absurd (cc (z, end, l))
                  | inr l ↦ omega arith
                ])
                (λ q h. elim (eq_or_lt q p (omega arith)) [
                  | inl l ↦ λ bad. cc (z, bad, l)
                  | inr l ↦ passed q l
                ]) in
            (r, found, ground arith)
      ]
