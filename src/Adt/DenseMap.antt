-- ===== src/Adt/DenseMap.antt =====
-- `DenseMap` of include/blocktype/IR/ADT/DenseMap.h: open addressing with linear probing. A bucket
-- that is not occupied holds no key and no value; the calls of constructors and destructors are not
-- represented. `std::hash` is the parameter `hash`.
pub mod Probes
pub mod Table
pub mod Lookup
pub mod Grow
pub mod Move
pub mod Room
pub mod Calls
pub mod Writes
pub mod Assoc
pub mod Spec
pub mod Simulation
pub mod Refines
use block_type.Prelude.{
  ℕ, zero, suc, ◌+◌, ◌-◌, ◌*◌, ◌%◌, Bool, true, false, Option, none, some, List, [], ◌∷◌, map, ◌==◌,
  leb, if◌then◌else◌, length, get_or, set, replicate,
}
use block_type.Prelude.Maps.{Key}

pub data Bucket {ℓ} (K V : Type ℓ) : Type ℓ where
  empty : Bucket K V
  occupied : K → V → Bucket K V
  tombstone : Bucket K V

-- `NumBuckets` is the length of `buckets`.
pub record DenseMap {ℓ} (K V : Type ℓ) : Type ℓ where
  pub buckets : List (Bucket K V)
  pub num_entries : ℕ
  pub num_tombstones : ℕ

abbrev pub no_buckets {ℓ} : {K V : Type ℓ} → DenseMap K V
no_buckets = record { buckets = []; num_entries = 0; num_tombstones = 0 }

-- The new entry of `insertInto`, `insert` and `operator[]`, in bucket `i`.
unfoldable pub place {ℓ} : {K V : Type ℓ} → K → V → ℕ → DenseMap K V → DenseMap K V
place k v i m = record m {
  buckets = set m.buckets i (occupied k v);
  num_entries = m.num_entries + 1;
}

-- `Buckets[i]`
abbrev pub at {ℓ} : {K V : Type ℓ} → List (Bucket K V) → ℕ → Bucket K V
at buckets i = get_or buckets i empty

module _ {ℓ} {K : Type ℓ} (hash : K → ℕ) where
  -- `(H + Probe) % NumBuckets`
  unfoldable pub index_at : ℕ → K → ℕ → ℕ
  index_at n k probe = (hash k % n + probe) % n

module _ {ℓ} {K V : Type ℓ} where
  -- The value that the iterator points to.
  unfoldable pub value_of : Bucket K V → Option V
  value_of empty = none
  value_of tombstone = none
  value_of (occupied j v) = some v

  unfoldable pub write : V → Bucket K V → Bucket K V
  write v empty = empty
  write v tombstone = tombstone
  write v (occupied k w) = occupied k v

module _ {ℓ} {K V : Type ℓ} (hash : K → ℕ) where
  -- The loop of `insertInto`; past its end stands `assert(false)`.
  unfoldable pub insert_into : K → V → ℕ → ℕ → DenseMap K V → DenseMap K V
  insert_into k v zero probe m = m
  insert_into k v (suc rounds) probe m =
      let idx = index_at hash (length m.buckets) k probe in
      elim (at m.buckets idx) [
        | empty ↦ place k v idx m
        | tombstone ↦ place k v idx m
        | occupied j w ↦ insert_into k v rounds (probe + 1) m
      ]

  -- The loop of `grow` over the old buckets.
  unfoldable pub move_all : List (Bucket K V) → DenseMap K V → DenseMap K V
  move_all [] m = m
  move_all (empty ∷ old) m = move_all old m
  move_all (tombstone ∷ old) m = move_all old m
  move_all (occupied k v ∷ old) m = move_all old (insert_into k v (length m.buckets) 0 m)

  unfoldable pub grow : DenseMap K V → DenseMap K V
  grow m =
      let n = length m.buckets in
      move_all m.buckets (record {
        buckets = replicate (if n == 0 then 16 else n * 2) empty;
        num_entries = 0;
        num_tombstones = 0;
      })

  unfoldable pub make_room : DenseMap K V → DenseMap K V
  make_room m =
      if leb (length m.buckets * 3) ((m.num_entries + m.num_tombstones) * 4) then grow m else m

module _ {ℓ} {K V : Type ℓ} ⦃key : Key K⦄ (hash : K → ℕ) where
  -- The loop of `lookupBucketFor`, with the rounds that are left.
  unfoldable pub probe_loop : List (Bucket K V) → K → ℕ → ℕ → ℕ → ℕ
  probe_loop buckets k zero probe first_tomb = first_tomb
  probe_loop buckets k (suc rounds) probe first_tomb =
      let n = length buckets in
      let idx = index_at hash n k probe in
      elim (at buckets idx) [
        | empty ↦ if first_tomb == n then idx else first_tomb
        | tombstone ↦
            probe_loop buckets k rounds (probe + 1) (if first_tomb == n then idx else first_tomb)
        | occupied j v ↦
            let rest = probe_loop buckets k rounds (probe + 1) first_tomb in
            if key.same j k then idx else rest
      ]

  unfoldable pub lookup_bucket_for : List (Bucket K V) → K → ℕ
  lookup_bucket_for buckets k =
      let n = length buckets in if n == 0 then 0 else probe_loop buckets k n 0 n

  -- The iterator that `find` returns is the index of its bucket; `none` is `end()`.
  unfoldable pub find : DenseMap K V → K → Option ℕ
  find m k =
      if length m.buckets == 0
      then none
      else let idx = lookup_bucket_for m.buckets k in
        elim (at m.buckets idx) [
          | empty ↦ none
          | tombstone ↦ none
          | occupied j v ↦ if key.same j k then some idx else none
        ]

  unfoldable pub contains : DenseMap K V → K → Bool
  contains m k = elim (find m k) [ none ↦ false | some i ↦ true ]

  unfoldable pub lookup : DenseMap K V → K → Option V
  lookup m k = elim (find m k) [ none ↦ none | some i ↦ value_of (at m.buckets i) ]

  -- What `insert` and `operator[]` do for a key that is not there: the new map and the bucket.
  unfoldable pub add : K → V → DenseMap K V → DenseMap K V × ℕ
  add k v m =
      let g = make_room hash m in let idx = lookup_bucket_for g.buckets k in (place k v idx g, idx)

  unfoldable pub insert : K → V → DenseMap K V → DenseMap K V × Bool
  insert k v m = elim (find m k) [ some i ↦ (m, false) | none ↦ ((add k v m).0, true) ]

  -- `operator[]`; `fresh` is `ValueT()`. It returns a reference to the bucket's value.
  unfoldable pub subscript : V → K → DenseMap K V → DenseMap K V × ℕ
  subscript fresh k m = elim (find m k) [ some i ↦ (m, i) | none ↦ add k fresh m ]

  -- `M[k] = v`
  unfoldable pub assign : V → K → V → DenseMap K V → DenseMap K V
  assign fresh k v m =
      let (g, i) = subscript fresh k m in
      record g { buckets = set g.buckets i (write v (at g.buckets i)) }

  unfoldable pub erase : K → DenseMap K V → DenseMap K V × ℕ
  erase k m = elim (find m k) [
    | none ↦ (m, 0)
    | some i ↦ (
      record m {
        buckets = set m.buckets i tombstone;
        num_entries = m.num_entries - 1;
        num_tombstones = m.num_tombstones + 1;
      },
      1,
    )
  ]

module _ {ℓ} {K V : Type ℓ} where
  unfoldable pub clear : DenseMap K V → DenseMap K V
  clear m = record m { buckets = map (λ b. empty) m.buckets; num_entries = 0; num_tombstones = 0 }
