-- ===== src/Adt/DenseMap/Refines.antt =====
-- `DenseMap` against a finite map: every sequence of calls has the same answers.
use block_type.Prelude.{
  ℕ, ◌<◌, ◌≡◌, ◌≢◌, some, Option-cases, ◌⊎◌, inl, inr, refl, sym, ap, ◌∙◌, true, false, List, [],
  ◌∷◌, arith, length,
}
use block_type.Prelude.Maps as Maps
use block_type.Prelude.Maps.{Key}
use block_type.Adt.DenseMap.Probes.{IsFree}
use block_type.Adt.DenseMap.Lookup.{find-none, bucket-IsPlace}
use block_type.Adt.DenseMap.Room.{make_room-HasRoom}
use block_type.Adt.DenseMap.{
  make_room, find, at, occupied, DenseMap, no_buckets, add, insert, erase, clear, lookup_bucket_for,
}
use block_type.Adt.DenseMap.Grow.{IsValid}
use block_type.Adt.DenseMap.Writes.{probe_in_range}
use block_type.Adt.DenseMap.Spec.{
  Call, assign_to, insert_at, erase_at, find_at, size_of, clear_all, Answer, inserted, erased,
  found, size, map_step, map_run, table_step, table_run, table_after,
}
use block_type.Adt.DenseMap.Simulation.{
  Refines, cleared, find-at_entry, add-Refines, assign-Refines, erase-Refines,
}

module _ {ℓ} {K V : Type ℓ} ⦃key : Key K⦄ (hash : K → ℕ) (fresh : V) where
  -- A step of both, by what each comes to.
  agree :
      (c : Call K V) (m m' : DenseMap K V) (l l' : List (K × V)) (a : Answer V)
      → table_step hash fresh c m ≡ (a, m')
      → map_step c l ≡ (a, l')
      → Refines hash fresh m' l'
      → ((table_step hash fresh c m).0 ≡ (map_step c l).0)
        × Refines hash fresh (table_step hash fresh c m).1 (map_step c l).1
  agree c m m' l l' a e f r = rw e (rw f (refl, r))

  insert_agrees :
      (k : K) (v : V) (m : DenseMap K V) (l : List (K × V))
      → Refines hash fresh m l
      → ((table_step hash fresh (insert_at k v) m).0 ≡ (map_step (insert_at k v) l).0)
        × Refines hash fresh
            (table_step hash fresh (insert_at k v) m).1
            (map_step (insert_at k v) l).1
  unfolding table_step map_step insert
  insert_agrees k v m l r = elim (find-at_entry hash fresh m k) [
    | inl (e, none_in) ↦
        let none_in' = sym (r.same k) ∙ none_in in
        agree (insert_at k v) m (add hash k v m).0 l (Maps.insert k v l) (inserted true)
          (ground arith) (ground arith) (add-Refines hash fresh m l k v r e none_in)
    | inr (i, u, e, here, in_map) ↦
        let in_map' = sym (r.same k) ∙ in_map in
        agree (insert_at k v) m m l l (inserted false) (ground arith) (ground arith) r
  ]

  erase_agrees :
      (k : K) (m : DenseMap K V) (l : List (K × V))
      → Refines hash fresh m l
      → ((table_step hash fresh (erase_at k) m).0 ≡ (map_step (erase_at k) l).0)
        × Refines hash fresh (table_step hash fresh (erase_at k) m).1 (map_step (erase_at k) l).1
  unfolding table_step map_step erase
  erase_agrees k m l r = elim (find-at_entry hash fresh m k) [
    | inl (e, none_in) ↦
        let none_in' = sym (r.same k) ∙ none_in in
        agree (erase_at k) m m l l (erased 0) (ground arith) (ground arith) r
    | inr (i, u, e, here, in_map) ↦
        let in_map' = sym (r.same k) ∙ in_map in
        agree (erase_at k) m _ l (Maps.erase k l) (erased 1) (ground arith) (ground arith)
          (erase-Refines hash fresh m l k u i r here in_map)
  ]

  step-Refines :
      (c : Call K V) (m : DenseMap K V) (l : List (K × V))
      → Refines hash fresh m l
      → ((table_step hash fresh c m).0 ≡ (map_step c l).0)
        × Refines hash fresh (table_step hash fresh c m).1 (map_step c l).1
  unfolding table_step map_step
  step-Refines (assign_to k v) m l r = (refl, assign-Refines hash fresh m l k v r)
  step-Refines (insert_at k v) m l r = insert_agrees k v m l r
  step-Refines (erase_at k) m l r = erase_agrees k m l r
  step-Refines (find_at k) m l r = (ap found (r.same k), r)
  step-Refines size_of m l r = (ap size r.sized, r)
  step-Refines clear_all m l r = (
    refl,
    cleared hash fresh m (elim r.valid.room [ inl z ↦ inl z | inr (large, _) ↦ inr large ]),
  )

  run-Refines :
      (cs : List (Call K V)) (m : DenseMap K V) (l : List (K × V))
      → Refines hash fresh m l
      → table_run hash fresh cs m ≡ map_run cs l
  unfolding table_run map_run
  run-Refines [] m l r = refl
  run-Refines (c ∷ cs) m l r =
      let (e, r') = step-Refines c m l r in
      cc (e, run-Refines cs (table_step hash fresh c m).1 (map_step c l).1 r')

  -- Every sequence of calls on a new table has the answers that it has on an empty finite map:
  -- assignments through `operator[]`, insertions, erasures, lookups, sizes and clearings, for any hash
  -- function, and however often the table grows.
  pub table_run-map_run :
      (cs : List (Call K V)) → table_run hash fresh cs no_buckets ≡ map_run cs []
  unfolding clear
  table_run-map_run cs = run-Refines cs no_buckets [] (cleared hash fresh no_buckets (inl refl))

  after-Refines :
      (cs : List (Call K V)) (m : DenseMap K V) (l : List (K × V))
      → Refines hash fresh m l
      → IsValid hash (table_after hash fresh cs m)
  unfolding table_after
  after-Refines [] m l r = r.valid
  after-Refines (c ∷ cs) m l r =
      after-Refines cs (table_step hash fresh c m).1 (map_step c l).1 (step-Refines c m l r).1

  -- After any sequence of calls on a new table: the bucket that a probe for a key ends at is one of the
  -- table, unless there is no array yet; and the bucket that `insert` and `operator[]` write to, after
  -- they may have grown the table, is one of that table, and holds no entry unless the key was there
  -- before.
  pub lookup_bucket_for-in_range :
      (cs : List (Call K V)) (k : K)
      → let m = table_after hash fresh cs no_buckets in
        let g = make_room hash m in
        let idx = lookup_bucket_for hash g.buckets k in
        ((length m.buckets ≡ 0) ⊎ (lookup_bucket_for hash m.buckets k < length m.buckets))
        × (idx < length g.buckets)
        × (((i : ℕ) × (find hash m k ≡ some i)) ⊎ IsFree (at g.buckets idx))
  unfolding clear
  lookup_bucket_for-in_range cs k =
      let m = table_after hash fresh cs no_buckets in
      let valid = after-Refines cs no_buckets [] (cleared hash fresh no_buckets (inl refl)) in
      let g = make_room hash m in
      let grown = make_room-HasRoom hash m valid in
      (
        probe_in_range hash m valid k,
        elim (probe_in_range hash g grown.valid' k) [
          | inl z ↦ absurd (omega (arith, grown.room'))
          | inr lt ↦ lt
        ],
        elim (Option-cases (find hash m k)) [
          | inl missing ↦
              let absent : (i : ℕ) (v : V) → at g.buckets i ≢ occupied k v = λ i v e.
                let (i', e') = (grown.holds k v).0 (i, e) in
                find-none hash m valid.table k missing i' v e' in
              inr
                (bucket-IsPlace hash g.buckets k absent
                  (omega (arith, grown.valid'.tombstones, grown.room'))).free
          | inr there ↦ inl there
        ],
      )
