-- ===== src/Source/File/Lines.antt =====
-- The line table agrees with a scan of the text.
use Prim.Native.String.{String}
use block_type.Prelude.{
  ℕ, zero, suc, ◌+◌, ◌-◌, ◌^◌, ◌≤◌, ◌<◌, ◌≡◌, ap, refl, sym, Σ_path, true, false, inl, inr, List,
  [], ◌∷◌, arith, ◌==◌, if◌then◌else◌, length, get_or, take, All, Bool-cases,
}
use block_type.Source.File.{offsets_from, new_file, upper_bound, line_offset, line_and_column}

-- Line and column after reading some bytes, counted from 1: a '\n' begins a line.
unfoldable pub scan : ℕ → ℕ → List ℕ → ℕ × ℕ
scan line column [] = (line, column)
scan line column (c ∷ cs) = if c == b'\n' then scan (line + 1) 1 cs else scan line (column + 1) cs

-- Where the line begins that the offset `x` is on, if `start` begins the first one.
abbrev line_start : ℕ → ℕ → List ℕ → ℕ
line_start x start table = get_or (start ∷ table) (upper_bound x table) 0

offsets_from-above :
    (i j : ℕ) (cs : List ℕ) → j ≤ i → i + length cs < 2 ^ 32 → All (λ y. j < y) (offsets_from i cs)
unfolding offsets_from
offsets_from-above i j [] h small = tt
offsets_from-above i j (c ∷ cs) h small =
    let rest = offsets_from-above (i + 1) j cs (omega arith) (omega arith) in
    elim (Bool-cases (c == b'\n')) [ inl e ↦ rw e (omega arith, rest) | inr e ↦ rw e rest ]

upper_bound_below : (x : ℕ) (ys : List ℕ) → All (λ y. x < y) ys → upper_bound x ys ≡ 0
unfolding upper_bound
upper_bound_below x [] h = refl
upper_bound_below x (y ∷ ys) h = ground arith

-- `k` bytes behind `i`, on a line that begins at `start`.
record Agrees (i start line column k : ℕ) (cs : List ℕ) : Type 0 where
  at_line : (scan line column (take k cs)).0 ≡ line + upper_bound (i + k) (offsets_from i cs)
  at_column :
      (scan line column (take k cs)).1 ≡ i + k - line_start (i + k) start (offsets_from i cs) + 1
  behind : line_start (i + k) start (offsets_from i cs) ≤ i + k

module _ (i : ℕ) (c : ℕ) (cs : List ℕ) (small : i + length (c ∷ cs) < 2 ^ 32) where
  offsets_newline :
      (c == b'\n') ≡ true → offsets_from i (c ∷ cs) ≡ (i + 1) ∷ offsets_from (i + 1) cs
  unfolding offsets_from
  offsets_newline e = rw e (ap (λ (y : ℕ). y ∷ offsets_from (i + 1) cs) (omega arith))

  offsets_other : (c == b'\n') ≡ false → offsets_from i (c ∷ cs) ≡ offsets_from (i + 1) cs
  unfolding offsets_from
  offsets_other e = rw e

upper_bound_past : (x y : ℕ) (ys : List ℕ) → y ≤ x → upper_bound x (y ∷ ys) ≡ suc (upper_bound x ys)
unfolding upper_bound
upper_bound_past x y ys h = ground arith

scan-Agrees :
    (i start line column k : ℕ) (cs : List ℕ)
    → column + start ≡ i + 1
    → start ≤ i
    → k ≤ length cs
    → i + length cs < 2 ^ 32
    → Agrees i start line column k cs
unfolding scan
scan-Agrees i start line column zero cs col h inside small =
    let here : i + 0 ≡ i = omega arith in
    let e =
      upper_bound_below i (offsets_from i cs) (offsets_from-above i i cs (omega arith) small) in
    record {
      at_line = rw (here, e) (omega arith);
      at_column = rw (here, e) (omega arith);
      behind = rw (here, e) h;
    }
scan-Agrees i start line column (suc k) [] col h inside small = absurd (omega arith)
scan-Agrees i start line column (suc k) (c ∷ cs) col h inside small =
    let next : i + suc k ≡ i + 1 + k = omega arith in
    elim (Bool-cases (c == b'\n')) [
      | inl e ↦
          let ih =
            scan-Agrees (i + 1) (i + 1) (line + 1) 1 k cs (omega arith) (omega arith) (omega arith)
              (omega arith) in
          let past = upper_bound_past (i + 1 + k) (i + 1) (offsets_from (i + 1) cs) (omega arith) in
          let table = offsets_newline i c cs small e in
          record {
            at_line = rw (e, next, table, past) (omega (arith, ih.at_line));
            at_column = rw (e, next, table, past) ih.at_column;
            behind = rw (next, table, past) ih.behind;
          }
      | inr e ↦
          let ih =
            scan-Agrees (i + 1) start line (column + 1) k cs (omega arith) (omega arith)
              (omega arith) (omega arith) in
          let table = offsets_other i c cs small e in
          record {
            at_line = rw (e, next, table) ih.at_line;
            at_column = rw (e, next, table) ih.at_column;
            behind = rw (next, table) ih.behind;
          }
    ]

upper_bound-le : (x : ℕ) (ys : List ℕ) → upper_bound x ys ≤ length ys
unfolding upper_bound
upper_bound-le x [] = omega arith
upper_bound-le x (y ∷ ys) = ground (arith, upper_bound-le x ys)

length-offsets_from : (i : ℕ) (cs : List ℕ) → length (offsets_from i cs) ≤ length cs
unfolding offsets_from
length-offsets_from i [] = omega arith
length-offsets_from i (c ∷ cs) = ground (arith, length-offsets_from (i + 1) cs)

-- The table lookup, before it is compared with the scan.
line_and_column_lem :
    (name : String) (text : List ℕ) (id offset : ℕ)
    → offset ≤ length text
    → length text + 1 < 2 ^ 32
    → line_start offset 0 (offsets_from 0 text) ≤ offset
    → line_and_column (new_file name text id) offset ≡ (
      upper_bound offset (offsets_from 0 text) + 1,
      offset - line_start offset 0 (offsets_from 0 text) + 1,
    )
unfolding line_and_column new_file line_offset
line_and_column_lem name text id offset inside small behind =
    let table = offsets_from 0 text in
    rw (upper_bound_past offset 0 table (omega arith))
      (ground (arith, upper_bound-le offset table, length-offsets_from 0 text))

-- For a file whose size fits 32 bits, and every offset up to its end, the line and the column that
-- the table gives are those of a scan of the bytes in front of the offset, both counted from 1.
pub line_and_column-scan :
    (name : String) (text : List ℕ) (id offset : ℕ)
    → offset ≤ length text
    → length text + 1 < 2 ^ 32
    → line_and_column (new_file name text id) offset ≡ scan 1 1 (take offset text)
line_and_column-scan name text id offset inside small =
    let a = scan-Agrees 0 0 1 1 offset text (omega arith) (omega arith) inside (omega arith) in
    let e : 0 + offset ≡ offset = omega arith in
    let b = rw e at a.behind in
    rw (line_and_column_lem name text id offset inside small b)
      (Σ_path (omega (arith, rw e at a.at_line)) (rw e at (sym a.at_column)))
