-- ===== src/Adt/DenseMap/Assoc.antt =====
-- Association lists with one entry for each key: the abstract map of `DenseMap`.
use block_type.Prelude.{
  ◌+◌, ◌≡◌, inl, inr, refl, ap, ◌∙◌, none, some, List, [], ◌∷◌, arith, length, Bool-cases,
}
use block_type.Prelude.Maps.{Key, lookup, insert, erase, lookup-insert, lookup-erase}

module _ {ℓ} {K V : Type ℓ} ⦃key : Key K⦄ where
  abbrev pub HasDistinctKeys : List (K × V) → Type ℓ
  HasDistinctKeys [] = Unit
  HasDistinctKeys ((k, v) ∷ l) = (lookup k l ≡ none) × HasDistinctKeys l

  pub length-insert_new :
      (k : K) (v : V) (l : List (K × V)) → lookup k l ≡ none → length (insert k v l) ≡ length l + 1
  unfolding lookup insert
  length-insert_new k v [] h = refl
  length-insert_new k v ((j, w) ∷ l) h = ground (arith, length-insert_new k v l)

  pub length-insert_old :
      (k : K) (v w : V) (l : List (K × V)) → lookup k l ≡ some w → length (insert k v l) ≡ length l
  unfolding lookup insert
  length-insert_old k v w [] h = cc h
  length-insert_old k v w ((j, x) ∷ l) h = ground (arith, length-insert_old k v w l)

  pub insert-HasDistinctKeys :
      (k : K) (v : V) (l : List (K × V)) → HasDistinctKeys l → HasDistinctKeys (insert k v l)
  unfolding lookup insert
  insert-HasDistinctKeys k v [] d = (refl, tt)
  insert-HasDistinctKeys k v ((j, w) ∷ l) (new, d) = elim (Bool-cases (key.same j k)) [
    | inl s ↦ rw s (new, d)
    | inr s ↦ rw s (
      lookup-insert k j v l ∙ ground (arith, key.same_iff j k, key.same_iff k j),
      insert-HasDistinctKeys k v l d,
    )
  ]

  erase_absent : (k : K) (l : List (K × V)) → lookup k l ≡ none → erase k l ≡ l
  unfolding lookup erase
  erase_absent k [] h = refl
  erase_absent k ((j, w) ∷ l) h = ground (arith, erase_absent k l)

  pub length-erase :
      (k : K) (v : V) (l : List (K × V))
      → HasDistinctKeys l
      → lookup k l ≡ some v
      → length (erase k l) + 1 ≡ length l
  unfolding lookup erase
  length-erase k v [] d h = cc h
  length-erase k v ((j, w) ∷ l) (new, d) h = elim (Bool-cases (key.same j k)) [
    | inl s ↦
        let e : j ≡ k = (key.same_iff j k).0 s in
        rw s (omega (arith, ap length (erase_absent k l (rw (← e) new))))
    | inr s ↦ ground (arith, length-erase k v l d)
  ]

  pub erase-HasDistinctKeys :
      (k : K) (l : List (K × V)) → HasDistinctKeys l → HasDistinctKeys (erase k l)
  unfolding erase
  erase-HasDistinctKeys k [] d = tt
  erase-HasDistinctKeys k ((j, w) ∷ l) (new, d) = elim (Bool-cases (key.same j k)) [
    | inl s ↦ rw s (erase-HasDistinctKeys k l d)
    | inr s ↦ rw s (lookup-erase k j l ∙ ground arith, erase-HasDistinctKeys k l d)
  ]
