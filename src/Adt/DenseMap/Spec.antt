-- ===== src/Adt/DenseMap/Spec.antt =====
-- Sequences of calls of `DenseMap`, on the table and on a finite map.
use block_type.Prelude.{ℕ, Bool, true, false, Option, none, some, List, [], ◌∷◌, length}
use block_type.Prelude.Maps as Maps
use block_type.Prelude.Maps.{Key}
use block_type.Adt.DenseMap.{DenseMap, insert, assign, erase, clear, lookup}

pub data Call {ℓ} (K V : Type ℓ) : Type ℓ where
  assign_to : K → V → Call K V
  insert_at : K → V → Call K V
  erase_at : K → Call K V
  find_at : K → Call K V
  size_of clear_all : Call K V

pub data Answer {ℓ} (V : Type ℓ) : Type ℓ where
  nothing : Answer V
  inserted : Bool → Answer V
  erased : ℕ → Answer V
  found : Option V → Answer V
  size : ℕ → Answer V

module _ {ℓ} {K V : Type ℓ} ⦃key : Key K⦄ where
  -- The finite map.
  unfoldable pub map_step : Call K V → List (K × V) → Answer V × List (K × V)
  map_step (assign_to k v) l = (nothing, Maps.insert k v l)
  map_step (insert_at k v) l = elim (Maps.lookup k l) [
    | none ↦ (inserted true, Maps.insert k v l)
    | some w ↦ (inserted false, l)
  ]
  map_step (erase_at k) l = elim (Maps.lookup k l) [
    | none ↦ (erased 0, l)
    | some w ↦ (erased 1, Maps.erase k l)
  ]
  map_step (find_at k) l = (found (Maps.lookup k l), l)
  map_step size_of l = (size (length l), l)
  map_step clear_all l = (nothing, [])

  unfoldable pub map_run : List (Call K V) → List (K × V) → List (Answer V)
  map_run [] l = []
  map_run (c ∷ cs) l = let (a, l') = map_step c l in a ∷ map_run cs l'

module _ {ℓ} {K V : Type ℓ} ⦃key : Key K⦄ (hash : K → ℕ) (fresh : V) where
  -- The table; `fresh` is `ValueT()`.
  unfoldable pub table_step : Call K V → DenseMap K V → Answer V × DenseMap K V
  table_step (assign_to k v) m = (nothing, assign hash fresh k v m)
  table_step (insert_at k v) m = let (m', b) = insert hash k v m in (inserted b, m')
  table_step (erase_at k) m = let (m', n) = erase hash k m in (erased n, m')
  table_step (find_at k) m = (found (lookup hash m k), m)
  table_step size_of m = (size m.num_entries, m)
  table_step clear_all m = (nothing, clear m)

  -- The table that the calls leave.
  unfoldable pub table_after : List (Call K V) → DenseMap K V → DenseMap K V
  table_after [] m = m
  table_after (c ∷ cs) m = table_after cs (table_step c m).1

  unfoldable pub table_run : List (Call K V) → DenseMap K V → List (Answer V)
  table_run [] m = []
  table_run (c ∷ cs) m = let (a, m') = table_step c m in a ∷ table_run cs m'
