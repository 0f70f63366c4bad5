-- ===== src/Ir/Types/Layout.antt =====
-- The fields of a struct that is not packed.
use Prim.Native.String.{String}
use block_type.Prelude.{
  ℕ, ◌+◌, ◌*◌, ◌%◌, ◌^◌, ◌≡◌, ◌≤◌, ◌<◌, refl, false, List, [], ◌∷◌, ltb, if◌then◌else◌, arith,
  Bool-cases, inl, inr,
}
use block_type.Ir.Types.{
  IrTypes, nil, cons, struct, u64, align_to, align_in_bits, max_align, size_in_bits, end_of_fields,
  field_offsets,
}
use block_type.Ir.Types.Align.{align_to-IsAligned}

module _ (ptr : ℕ) where
  abbrev pub IsPower : ℕ → Type 0
  IsPower a = (k : ℕ) × (k < 64) × (a ≡ 2 ^ k)

  -- All fields are aligned to powers of two.
  unfoldable pub IsSound : IrTypes → Type 0
  IsSound nil = Unit
  IsSound (cons t ts) = IsPower (align_in_bits ptr t) × IsSound ts

  -- More than the fields can take.
  unfoldable pub room : IrTypes → ℕ
  room nil = 0
  room (cons t ts) = size_in_bits ptr t + align_in_bits ptr t + room ts

  -- From `low` on, each field starts at a multiple of its alignment, behind the field before it, and
  -- all end before `end`.
  unfoldable pub LaidOut : ℕ → IrTypes → List ℕ → ℕ → Type 0
  LaidOut low nil [] end = low ≤ end
  LaidOut low nil (o ∷ os) end = ⊥
  LaidOut low (cons t ts) [] end = ⊥
  LaidOut low (cons t ts) (o ∷ os) end =
      (low ≤ o) × (o % align_in_bits ptr t ≡ 0) × LaidOut (o + size_in_bits ptr t) ts os end

  LaidOut-more :
      (low : ℕ) (ts : IrTypes) (os : List ℕ) (end end' : ℕ)
      → end ≤ end'
      → LaidOut low ts os end
      → LaidOut low ts os end'
  unfolding LaidOut
  LaidOut-more low nil [] end end' le ok = omega arith
  LaidOut-more low nil (o ∷ os) end end' le ok = ok
  LaidOut-more low (cons t ts) [] end end' le ok = ok
  LaidOut-more low (cons t ts) (o ∷ os) end end' le ok =
      (ok.0, ok.1, LaidOut-more (o + size_in_bits ptr t) ts os end end' le ok.2)

  align_to-power :
      (offset a : ℕ)
      → IsPower a
      → offset + a < 2 ^ 64
      → (offset ≤ align_to offset a)
        × (align_to offset a < offset + a)
        × (align_to offset a % a ≡ 0)
  align_to-power offset a (k, small, e) fits =
      rw e (align_to-IsAligned k offset small (rw e at fits))

  fields-LaidOut :
      (ts : IrTypes) (offset : ℕ)
      → IsSound ts
      → offset + room ts < 2 ^ 64
      → LaidOut offset ts (field_offsets ptr false offset ts) (end_of_fields ptr false offset ts)
        × (end_of_fields ptr false offset ts ≤ offset + room ts)
  unfolding IsSound room LaidOut field_offsets end_of_fields
  fields-LaidOut nil offset sound fits = (omega arith, omega arith)
  fields-LaidOut (cons t ts) offset sound fits =
      let (low, high, multiple) =
        align_to-power offset (align_in_bits ptr t) sound.0 (omega arith) in
      let start = align_to offset (align_in_bits ptr t) in
      let next : u64 (start + size_in_bits ptr t) ≡ start + size_in_bits ptr t = omega arith in
      let (rest, end) = fields-LaidOut ts (start + size_in_bits ptr t) sound.1 (omega arith) in
      rw next ((low, multiple, rest), omega arith)

  max_align-IsPower :
      (ts : IrTypes) (so_far : ℕ) → IsPower so_far → IsSound ts → IsPower (max_align ptr so_far ts)
  unfolding IsSound max_align
  max_align-IsPower nil so_far power sound = power
  max_align-IsPower (cons t ts) so_far power sound =
      max_align-IsPower ts _
        (elim (Bool-cases (ltb so_far (align_in_bits ptr t))) [
          | inl h ↦ rw h sound.0
          | inr h ↦ rw h power
        ])
        sound.1

  max_align-room : (ts : IrTypes) (so_far : ℕ) → max_align ptr so_far ts ≤ so_far + room ts
  unfolding room max_align
  max_align-room nil so_far = omega arith
  max_align-room (cons t ts) so_far = ground (
    arith,
    max_align-room ts (if ltb so_far (align_in_bits ptr t) then align_in_bits ptr t else so_far),
  )

-- In a struct that is not packed, all whose fields are aligned to powers of two, and which does not
-- come near the limit of the numbers: each field starts at a multiple of its alignment, behind the
-- end of the field before it, the last one ends within the struct, and the size of the struct is a
-- multiple of its alignment.
pub struct-LaidOut :
    (ptr : ℕ) (name : String) (fields : IrTypes)
    → IsSound ptr fields
    → 8 + 2 * room ptr fields < 2 ^ 64
    → LaidOut ptr 0 fields
        (field_offsets ptr false 0 fields)
        (size_in_bits ptr (struct name fields false))
      × (size_in_bits ptr (struct name fields false) % align_in_bits ptr (struct name fields false)
          ≡ 0)
unfolding size_in_bits align_in_bits
struct-LaidOut ptr name nil sound fits = (unfold LaidOut field_offsets in omega arith, refl)
struct-LaidOut ptr name (cons t ts) sound fits =
    let (placed, end) = fields-LaidOut ptr (cons t ts) 0 sound (omega arith) in
    let power = max_align-IsPower ptr (cons t ts) 8 (3, omega arith, refl) sound in
    let (above, below, multiple) =
      align_to-power ptr (end_of_fields ptr false 0 (cons t ts)) (max_align ptr 8 (cons t ts)) power
        (omega (arith, max_align-room ptr (cons t ts) 8)) in
    (LaidOut-more ptr 0 (cons t ts) _ _ _ above placed, multiple)
