-- ===== src/Adt/DenseMap/Probes.antt =====
-- Where the probe loops of `DenseMap` stop: at the key's bucket, or at a free one on its path.
use block_type.Prelude.{
  ℕ, zero, suc, ◌+◌, ◌%◌, ◌≤◌, ◌<◌, ◌≡◌, ◌≢◌, ◌⊎◌, inl, inr, refl, sym, ap, subst, ◌∙◌, Bool, List,
  arith, Bool-cases, if◌then◌else◌, length, ◌==◌, ==_iff, dec_lt,
}
use native.Mathlib.Nat.{mod-lt}
use block_type.Prelude.Maps.{Key}
use block_type.Adt.DenseMap.{Bucket, empty, occupied, tombstone, at, index_at, probe_loop}

abbrev pub IsFree {ℓ} : {K V : Type ℓ} → Bucket K V → Type 0
IsFree empty = Unit
IsFree tombstone = Unit
IsFree (occupied k v) = ⊥

pub index_at-lt {ℓ} :
    {K : Type ℓ} (hash : K → ℕ) (n : ℕ) (k : K) (p : ℕ) → 0 < n → index_at hash n k p < n
unfolding index_at
index_at-lt hash n k p h = mod-lt (hash k % n + p) h

module _ {ℓ} {K V : Type ℓ} (hash : K → ℕ) where
  -- Bucket `i` is on the probe path of `k`, behind buckets none of which is empty.
  pub record Reaches (buckets : List (Bucket K V)) (k : K) (i : ℕ) : Type ℓ where
    pub probe : ℕ
    pub within : probe < length buckets
    pub hits : index_at hash (length buckets) k probe ≡ i
    pub passed : (q : ℕ) → q < probe → at buckets (index_at hash (length buckets) k q) ≢ empty

  pub record IsTable (buckets : List (Bucket K V)) : Type ℓ where
    pub reached : (i : ℕ) (k : K) (v : V) → at buckets i ≡ occupied k v → Reaches buckets k i
    pub unique :
        (i j : ℕ) (k : K) (v w : V)
        → at buckets i ≡ occupied k v
        → at buckets j ≡ occupied k w
        → i ≡ j

  -- Where the key is not there, the loop stops at a free bucket that the key reaches.
  pub record IsPlace (buckets : List (Bucket K V)) (k : K) (i : ℕ) : Type ℓ where
    pub reached : Reaches buckets k i
    pub free : IsFree (at buckets i)

pub eq_or_lt : (p q : ℕ) → p ≤ q → (p ≡ q) ⊎ (p < q)
eq_or_lt p q h = elim (dec_lt p q) [ yes l ↦ inr l | no l ↦ inl (omega arith) ]

pub Bucket-cases {ℓ} :
    {K V : Type ℓ} (b : Bucket K V)
    → (b ≡ empty) ⊎ (b ≡ tombstone) ⊎ ((k : K) × (v : V) × (b ≡ occupied k v))
Bucket-cases empty = inl refl
Bucket-cases tombstone = inr (inl refl)
Bucket-cases (occupied k v) = inr (inr (k, v, refl))

module _ {ℓ} {K V : Type ℓ} ⦃key : Key K⦄ (hash : K → ℕ) where
  module _ (buckets : List (Bucket K V)) (k : K) (rounds p first : ℕ) where
    -- One round, by what the bucket holds.
    probe_empty :
        at buckets (index_at hash (length buckets) k p) ≡ empty
        → probe_loop hash buckets k (suc rounds) p first
          ≡ (if first == length buckets then index_at hash (length buckets) k p else first)
    unfolding probe_loop
    probe_empty e = ground arith

    probe_tombstone :
        at buckets (index_at hash (length buckets) k p) ≡ tombstone
        → probe_loop hash buckets k (suc rounds) p first
          ≡ probe_loop hash buckets k rounds
              (p + 1)
              (if first == length buckets then index_at hash (length buckets) k p else first)
    unfolding probe_loop
    probe_tombstone e = ground arith

    probe_occupied :
        (j : K) (v : V)
        → at buckets (index_at hash (length buckets) k p) ≡ occupied j v
        → probe_loop hash buckets k (suc rounds) p first ≡ (
            if key.same j k
            then index_at hash (length buckets) k p
            else probe_loop hash buckets k rounds (p + 1) first)
    unfolding probe_loop
    probe_occupied j v e = ground arith

  module _ (buckets : List (Bucket K V)) where
    -- A bucket that is occupied by another key, or a tombstone, is passed.
    pub probe_found :
        (table : IsTable hash buckets) (k : K) (v : V) (i : ℕ) (here : at buckets i ≡ occupied k v)
        (r : Reaches hash buckets k i) (rounds p first : ℕ)
        → rounds + p ≡ length buckets
        → p ≤ r.probe
        → probe_loop hash buckets k rounds p first ≡ i
    probe_found table k v i here r zero p first e le = absurd (omega (arith, r.within))
    probe_found table k v i here r (suc rounds) p first e le =
        let idx = index_at hash (length buckets) k p in
        let last : p ≡ r.probe → at buckets idx ≡ occupied k v = λ q. rw (q, r.hits) here in
        let next = probe_found table k v i here r rounds (p + 1) in
        elim (Bucket-cases (at buckets idx)) [
          | inl none_here ↦ absurd (elim (eq_or_lt p r.probe le) [
            | inl q ↦ cc (none_here, last q)
            | inr q ↦ r.passed p q none_here
          ])
          | inr (inl t) ↦ elim (eq_or_lt p r.probe le) [
            | inl q ↦ cc (t, last q)
            | inr q ↦
                probe_tombstone buckets k rounds p first t ∙ next _ (omega arith) (omega arith)
          ]
          | inr (inr (j, w, o)) ↦ elim (Bool-cases (key.same j k)) [
            | inl s ↦
                probe_occupied buckets k rounds p first j w o
                ∙ rw s (
                    table.unique idx i k w v
                      (o ∙ ap (λ (x : K). occupied x w) ((key.same_iff j k).0 s)) here)
            | inr s ↦ elim (eq_or_lt p r.probe le) [
              | inl q ↦ absurd (cc (s, (key.same_iff j k).1 (cc (o, last q))))
              | inr q ↦
                  probe_occupied buckets k rounds p first j w o
                  ∙ rw s (next first (omega arith) (omega arith))
            ]
          ]
        ]

    first_free :
        (k : K) (idx first : ℕ)
        → (first ≡ length buckets) ⊎ IsPlace hash buckets k first
        → IsPlace hash buckets k idx
        → IsPlace hash buckets k (if first == length buckets then idx else first)
    first_free k idx first old now = elim (Bool-cases (first == length buckets)) [
      | inl t ↦ rw t now
      | inr f ↦ rw f (elim old [
        | inl none_yet ↦ absurd (cc (f, (==_iff first (length buckets)).1 none_yet))
        | inr place ↦ place
      ])
    ]

    pub probe_absent :
        (k : K)
        → ((i : ℕ) (v : V) → at buckets i ≢ occupied k v)
        → (last : ℕ) → last < length buckets
        → at buckets (index_at hash (length buckets) k last) ≡ empty
        → (rounds p first : ℕ) → rounds + p ≡ length buckets
        → p ≤ last
        → ((q : ℕ) → q < p → at buckets (index_at hash (length buckets) k q) ≢ empty)
        → (first ≡ length buckets) ⊎ IsPlace hash buckets k first
        → IsPlace hash buckets k (probe_loop hash buckets k rounds p first)
    probe_absent k absent last in_range end zero p first e le passed old = absurd (omega arith)
    probe_absent k absent last in_range end (suc rounds) p first e le passed old =
        let n = length buckets in
        let idx = index_at hash n k p in
        let place : IsFree (at buckets idx) → IsPlace hash buckets k idx = λ free. record {
          reached = record { probe = p; within = omega arith; hits = refl; passed = passed };
          free = free;
        } in
        let next = probe_absent k absent last in_range end rounds (p + 1) in
        let passed' : at buckets idx ≢ empty
            → (q : ℕ) → q < p + 1
            → at buckets (index_at hash n k q) ≢ empty =
          λ here q h. elim (eq_or_lt q p (omega arith)) [
            | inl same ↦ rw same here
            | inr less ↦ passed q less
          ] in
        let further : at buckets idx ≢ empty → suc p ≤ last = λ here. elim (eq_or_lt p last le) [
          | inl same ↦ absurd (here (rw same end))
          | inr less ↦ less
        ] in
        elim (Bucket-cases (at buckets idx)) [
          | inl none_here ↦
              subst (IsPlace hash buckets k) (sym (probe_empty buckets k rounds p first none_here))
                (first_free k idx first old (place (rw none_here tt)))
          | inr (inl t) ↦
              let here : at buckets idx ≢ empty = λ z. cc (t, z) in
              subst (IsPlace hash buckets k) (sym (probe_tombstone buckets k rounds p first t)) (
                next _ (omega arith) (omega (arith, further here)) (passed' here)
                  (inr (first_free k idx first old (place (rw t tt)))))
          | inr (inr (j, w, o)) ↦
              let here : at buckets idx ≢ empty = λ z. cc (o, z) in
              elim (Bool-cases (key.same j k)) [
                | inl s ↦
                    absurd
                      (absent idx w (o ∙ ap (λ (x : K). occupied x w) ((key.same_iff j k).0 s)))
                | inr s ↦
                    subst (IsPlace hash buckets k)
                      (sym (
                        probe_occupied buckets k rounds p first j w o
                        ∙ ap
                            (λ (b : Bool).
                              if b then idx else probe_loop hash buckets k rounds (p + 1) first)
                            s))
                      (next first (omega arith) (omega (arith, further here)) (passed' here) old)
              ]
        ]
