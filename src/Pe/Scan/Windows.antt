-- ===== src/Pe/Scan/Windows.antt =====
-- The lines of a dump cover its window.
use open_scum_rcon.Base.{
  ℕ, zero, suc, ◌+◌, ◌-◌, ◌%◌, ◌^◌, ◌≤◌, ◌<◌, min, ◌≡◌, refl, inl, inr, true, false, some, List, [],
  ◌∷◌, arith, Bytes, ltb, if◌then◌else◌, ltb→lt, ltb→ge, Bool-cases, Option-cases, length, drop,
  length-take, length-drop,
}
use open_scum_rcon.Pe.{PeImage, file_offset_to_va}
use open_scum_rcon.Pe.Scan.{Zydis, IsZydis, window, Line, line_at, dump_loop, dump_context}

pub length-window :
    (bytes : Bytes) (offset end : ℕ)
    → end ≤ length bytes
    → length (window bytes offset end) ≡ end - offset
length-window bytes offset end h =
    omega (arith, length-take (end - offset) (drop offset bytes), length-drop offset bytes)

module _ (zydis : Zydis) (law : IsZydis zydis) where
  -- The lines follow each other without a gap from an offset and its address to the end; a marked
  -- line holds the reference.
  abbrev pub Covers : ℕ → ℕ → ℕ → ℕ → List (Line zydis) → Type 0
  Covers xref end offset address [] = offset ≡ end
  Covers xref end offset address (l ∷ lines) =
      (l.offset ≡ offset)
      × (l.address ≡ address)
      × (0 < l.size)
      × (l.marked ≡ true → (offset ≤ xref) × (xref < offset + l.size))
      × Covers xref end (offset + l.size) ((address + l.size) % 2 ^ 64) lines

  -- What holds of the line at an offset before the end.
  abbrev Steps : ℕ → ℕ → ℕ → ℕ → Line zydis → Type 0
  Steps xref end offset address l =
      (l.offset ≡ offset)
      × (l.address ≡ address)
      × (0 < l.size)
      × (offset + l.size ≤ end)
      × (l.marked ≡ true → (offset ≤ xref) × (xref < offset + l.size))

  line_at-Steps :
      (bytes : Bytes) (xref end offset address : ℕ)
      → end ≤ length bytes
      → offset < end
      → Steps xref end offset address (
          line_at zydis xref offset address
            (zydis.disassemble_intel address (window bytes offset end)))
  line_at-Steps bytes xref end offset address fits h =
      elim (Option-cases (zydis.disassemble_intel address (window bytes offset end))) [
        | inl failed ↦ rw failed (refl, refl, omega arith, omega arith, λ e. cc)
        | inr ((n, shown), done) ↦
            let (pos, small) = law.disassembled address _ n shown done in
            let size = length-window bytes offset end fits in
            rw done (refl, refl, pos, omega arith, λ e. ground arith)
      ]

  dump_loop-Covers :
      (fuel : ℕ) (bytes : Bytes) (xref end offset address : ℕ)
      → end ≤ length bytes
      → offset ≤ end
      → end ≤ fuel + offset
      → (lines : List (Line zydis)) × (dump_loop zydis fuel bytes xref end offset address
          ≡ some lines)
        × Covers xref end offset address lines
  unfolding dump_loop
  dump_loop-Covers zero bytes xref end offset address fits h f =
      let over : ltb offset end ≡ false = ground arith in ([], rw over, omega arith)
  dump_loop-Covers (suc fuel) bytes xref end offset address fits h f =
      elim (Bool-cases (ltb offset end)) [
        | inr over ↦ ([], rw over, omega (arith, ltb→ge _ _ over))
        | inl more ↦
            let line =
              line_at zydis xref offset address
                (zydis.disassemble_intel address (window bytes offset end)) in
            let (here, there, pos, small, marks) =
              line_at-Steps bytes xref end offset address fits (ltb→lt _ _ more) in
            let (lines, done, covers) =
              dump_loop-Covers fuel bytes xref end (offset + line.size)
                ((address + line.size) % 2 ^ 64) fits small (omega arith) in
            (line ∷ lines, rw (more, done), (here, there, pos, marks, covers))
      ]

  -- `dumpContext` ends, and its lines cover the window round a reference inside of the file without
  -- a gap, each at the address of the one before it plus its size; only the line that holds the
  -- reference is marked.
  pub dump_context-Covers :
      (image : PeImage) (xref : ℕ)
      → xref < length image.bytes
      → (lines : List (Line zydis)) × (dump_context zydis image xref ≡ some lines)
        × Covers xref
            (min (length image.bytes) (xref + 600))
            (xref - 400)
            (file_offset_to_va (xref - 400) image)
            lines
  unfolding dump_context
  dump_context-Covers image xref h =
      let start : (if ltb 400 xref then xref - 400 else 0) ≡ xref - 400 = ground arith in
      rw start (
        dump_loop-Covers _ image.bytes xref (min (length image.bytes) (xref + 600)) (xref - 400) _
          (omega arith) (omega arith) (omega arith))
