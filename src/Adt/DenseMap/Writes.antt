-- ===== src/Adt/DenseMap/Writes.antt =====
-- A write to the bucket of an entry of `DenseMap`, and the laws of its operations.
use block_type.Prelude.{
  ℕ, zero, suc, ◌+◌, ◌-◌, ◌≤◌, ◌<◌, ◌≡◌, ◌≢◌, ◌⊎◌, inl, inr, refl, sym, ap, subst, ◌∙◌, List, [],
  ◌∷◌, arith, length, length-set, set, map, length-map, Option-cases, ℕ_discrete,
}
use block_type.Prelude.Maps.{Key}
use block_type.Adt.DenseMap.{
  Bucket, empty, occupied, tombstone, DenseMap, at, find, clear, lookup_bucket_for,
}
use block_type.Adt.DenseMap.Probes.{Reaches}
use block_type.Adt.DenseMap.Table.{
  at-set_self, at-set_ne, at_lt, total, total-set, entry, used, IsTable-set,
}
use block_type.Adt.DenseMap.Lookup.{Holds, find_sound, find-none, bucket_found, bucket-IsPlace}
use block_type.Adt.DenseMap.Grow.{IsValid, place-lt}
use block_type.Adt.DenseMap.Room.{all_empty-IsTable}
use block_type.Adt.DenseMap.Calls.{Binds, Drops}

module _ {ℓ} {K V : Type ℓ} (hash : K → ℕ) (m : DenseMap K V) (valid : IsValid hash m) (k : K)
    (u : V) (i : ℕ) (here : at m.buckets i ≡ occupied k u) where
  module _ (b : Bucket K V) where
    others :
        (j : K) (w : V)
        → Holds (set m.buckets i b) j w
        → (b ≡ occupied j w) ⊎ ((j ≢ k) × Holds m.buckets j w)
    others j w (x, e) = elim (ℕ_discrete i x) [
      | yes same ↦ inl (
          sym (at-set_self m.buckets i b (at_lt m.buckets i k u here))
          ∙ ap (at (set m.buckets i b)) same
          ∙ e)
      | no other ↦
          let old : at m.buckets x ≡ occupied j w = sym (at-set_ne m.buckets i x b other) ∙ e in
          inr (
            λ same.
                other (valid.table.unique i x k u w here (old ∙ ap (λ (y : K). occupied y w) same)),
            (x, old),
          )
    ]

    stay : (j : K) (w : V) → j ≢ k → Holds m.buckets j w → Holds (set m.buckets i b) j w
    stay j w other (x, e) =
        (x, at-set_ne m.buckets i x b (λ same. other (cc (here, e, ap (at m.buckets) same))) ∙ e)

  pub rewrite-Binds :
      (v : V) → Binds hash k v m (record m { buckets = set m.buckets i (occupied k v) })
  rewrite-Binds v =
      let lt = at_lt m.buckets i k u here in
      record {
        valid = record {
          table =
              IsTable-set hash m.buckets valid.table i (occupied k v) lt (λ e. cc e)
                (λ k' v' e.
                  let same : k ≡ k' = cc e in
                  (
                    subst (λ x. Reaches hash m.buckets x i) same (valid.table.reached i k u here),
                    λ x w f.
                        valid.table.unique x i k' w u f (here ∙ ap (λ (y : K). occupied y u) same),
                  ));
          entries =
              omega (
                arith,
                valid.entries,
                total-set entry m.buckets i (occupied k v) lt,
                ap entry here,
              );
          tombstones =
              omega (
                arith,
                valid.tombstones,
                total-set used m.buckets i (occupied k v) lt,
                ap used here,
              );
          room = rw (length-set m.buckets i (occupied k v)) valid.room;
        };
        holds = λ j w. (
          λ h. elim (others (occupied k v) j w h) [ inl e ↦ inl (cc e, cc e) | inr o ↦ inr o ],
          λ h. elim h [
            | inl (a, b) ↦ (i, at-set_self m.buckets i (occupied k v) lt ∙ cc (a, b))
            | inr (a, old) ↦ stay (occupied k v) j w a old
          ],
        );
      }

  pub erase-Drops : Drops hash k m (record m {
    buckets = set m.buckets i tombstone;
    num_entries = m.num_entries - 1;
    num_tombstones = m.num_tombstones + 1;
  })
  erase-Drops =
      let lt = at_lt m.buckets i k u here in
      let counts = total-set entry m.buckets i tombstone lt in
      record {
        valid = record {
          table =
              IsTable-set hash m.buckets valid.table i tombstone lt (λ e. cc e)
                (λ k' v' e. absurd (cc e));
          entries = omega (arith, valid.entries, counts, ap entry here);
          tombstones = omega (
            arith,
            valid.tombstones,
            valid.entries,
            counts,
            ap entry here,
            total-set used m.buckets i tombstone lt,
            ap used here,
          );
          room = rw (length-set m.buckets i tombstone) (elim valid.room [
            | inl z ↦ inl z
            | inr (a, b) ↦ inr (a, omega (arith, valid.entries, counts, ap entry here))
          ]);
        };
        holds = λ j w. (
          λ h. elim (others tombstone j w h) [ inl e ↦ absurd (cc e) | inr o ↦ o ],
          λ h. stay tombstone j w h.0 h.1,
        );
      }

module _ {ℓ} {K V : Type ℓ} where
  pub at-cleared :
      (bs : List (Bucket K V)) (i : ℕ) → at (map {B = Bucket K V} (λ b. empty) bs) i ≡ empty
  at-cleared [] i = refl
  at-cleared (b ∷ bs) zero = refl
  at-cleared (b ∷ bs) (suc i) = at-cleared bs i

  total-cleared :
      (f : Bucket K V → ℕ) (bs : List (Bucket K V))
      → f empty ≡ 0
      → total f (map (λ b. empty) bs) ≡ 0
  unfolding total
  total-cleared f [] e = refl
  total-cleared f (b ∷ bs) e = omega (arith, e, total-cleared f bs e)

  pub clear-IsValid :
      (hash : K → ℕ) (m : DenseMap K V)
      → (length m.buckets ≡ 0) ⊎ (16 ≤ length m.buckets)
      → IsValid hash (clear m)
  unfolding clear
  clear-IsValid hash m large = record {
    table = all_empty-IsTable hash _ (at-cleared m.buckets);
    entries = total-cleared entry m.buckets refl;
    tombstones = omega (arith, total-cleared used m.buckets refl);
    room =
        rw (length-map {A = Bucket K V} {B = Bucket K V} m.buckets (λ b. empty))
          (elim large [ inl z ↦ inl z | inr size ↦ inr (size, omega arith) ]);
  }

module _ {ℓ} {K V : Type ℓ} ⦃key : Key K⦄ (hash : K → ℕ) where
  pub probe_in_range :
      (m : DenseMap K V)
      → IsValid hash m
      → (k : K) → (length m.buckets ≡ 0) ⊎ (lookup_bucket_for hash m.buckets k < length m.buckets)
  probe_in_range m valid k = elim valid.room [
    | inl z ↦ inl z
    | inr (_, room) ↦ inr (elim (Option-cases (find hash m k)) [
      | inl e ↦ place-lt hash m (
          bucket-IsPlace hash m.buckets k (find-none hash m valid.table k e)
            (omega (arith, valid.tombstones)))
      | inr (i, e) ↦
          let (v, here) = find_sound hash m k i e in
          rw (bucket_found hash m.buckets valid.table k v i here) (at_lt m.buckets i k v here)
    ])
  ]
