-- ===== src/Pe/Scan/References.antt =====
-- What the scan of a section reports.
use open_scum_rcon.Base.{
  ℕ, zero, suc, ◌+◌, ◌-◌, ◌%◌, ◌^◌, ◌≤◌, ◌<◌, ◌≡◌, refl, inl, inr, false, some, List, [], ◌∷◌,
  arith, Bytes, ltb, ltb→lt, ltb→ge, Bool-cases, Option-cases, length, All,
}
use mathlib.Core.Option
use mathlib.Core.List.{Memᴰ}
use open_scum_rcon.Pe.{Section, PeImage}
use open_scum_rcon.Pe.Scan.{
  Operand, Instruction, Zydis, IsZydis, StringHit, Xref, Scan, matched, window, absolute_address,
  scan_operands, scan_round, scan_loop, section_end, scan_section,
}
use open_scum_rcon.Pe.Scan.Complete.{Visits, Refers, scan_loop-complete}
use open_scum_rcon.Pe.Scan.Matches.{Matches, matched-Matches}
use open_scum_rcon.Pe.Scan.Windows.{length-window}

module _ (zydis : Zydis) (law : IsZydis zydis) (hits exact_hits : List StringHit)
    (bytes : Bytes) where
  -- An instruction stands at the place and has an operand whose address belongs to the hit.
  pub record IsReference (start base end : ℕ) (x : Xref) : Type 0 where
    pub behind : start ≤ x.file_offset
    pub before : x.file_offset < end
    pub placed : x.va ≡ (base + (x.file_offset - start)) % 2 ^ 64
    pub instruction : Instruction
    pub decoded : zydis.decode_full (window bytes x.file_offset end) ≡ some instruction
    pub operand : Operand
    pub of_instruction : Memᴰ operand instruction.operands
    pub address : ℕ
    pub addressed : absolute_address zydis instruction x.va operand ≡ some address
    pub matches : Matches hits exact_hits address x.hit

  scan_operands-All :
      (P : Xref → Type 0) (i : Instruction) (address offset : ℕ) (operands : List Operand)
      (xrefs : List Xref)
      → All P xrefs
      → ((op : Operand) (a : ℕ) (h : StringHit)
          → Memᴰ op operands
          → absolute_address zydis i address op ≡ some a
          → matched hits exact_hits a ≡ some h
          → P (record { va = address; file_offset = offset; hit = h }))
      → All P (scan_operands zydis hits exact_hits i address offset operands xrefs)
  unfolding scan_operands Option.bind
  scan_operands-All P i address offset [] xrefs known new = known
  scan_operands-All P i address offset (op ∷ operands) xrefs known new =
      let go : (xs : List Xref)
          → All P xs
          → All P (scan_operands zydis hits exact_hits i address offset operands xs) =
        λ xs all.
          scan_operands-All P i address offset operands xs all
            (λ o a h m. new o a h (Memᴰ.tail m)) in
      elim (Option-cases (absolute_address zydis i address op)) [
        | inl nowhere ↦ rw (nowhere, scan_operands) (go xrefs known)
        | inr (a, there) ↦ elim (Option-cases (matched hits exact_hits a)) [
          | inl nothing ↦ rw (there, nothing, scan_operands) (go xrefs known)
          | inr (h, hit) ↦
              rw (there, hit, scan_operands) (go _ (new op a h (Memᴰ.head refl) there hit, known))
        ]
      ]

  module _ (start base end : ℕ) (fits : end ≤ length bytes) where
    -- Holds at the head of the loop.
    record IsScanning (s : Scan) : Type 0 where
      behind : start ≤ s.offset
      before : s.offset ≤ end
      placed : s.runtime_address ≡ (base + (s.offset - start)) % 2 ^ 64
      sound : All (IsReference start base end) s.xrefs

    scan_round-IsScanning :
        (s : Scan)
        → IsScanning s
        → s.offset < end
        → IsScanning (scan_round zydis hits exact_hits bytes end s)
          × (s.offset < (scan_round zydis hits exact_hits bytes end s).offset)
    unfolding scan_round
    scan_round-IsScanning s v h =
        elim (Option-cases (zydis.decode_full (window bytes s.offset end))) [
          | inl failed ↦
              rw (failed, scan_round)
                (
                  record {
                    behind = omega (arith, v.behind);
                    before = omega arith;
                    placed = omega (arith, v.placed, v.behind);
                    sound = v.sound;
                  },
                  omega arith,
                )
          | inr (i, found) ↦
              let (pos, small) = law.decoded _ i found in
              let size = length-window bytes s.offset end fits in
              rw (found, scan_round)
                (
                  record {
                    behind = omega (arith, v.behind);
                    before = omega arith;
                    placed = omega (arith, v.placed, v.behind);
                    sound =
                        scan_operands-All (IsReference start base end) i s.runtime_address s.offset
                          i.operands s.xrefs v.sound
                          (λ op a hit m there hits_it. record {
                            behind = v.behind;
                            before = h;
                            placed = v.placed;
                            instruction = i;
                            decoded = found;
                            operand = op;
                            of_instruction = m;
                            address = a;
                            addressed = there;
                            matches = matched-Matches a hits exact_hits hit hits_it;
                          });
                  },
                  omega arith,
                )
        ]

    scan_loop-IsScanning :
        (fuel : ℕ) (s : Scan)
        → IsScanning s
        → end ≤ fuel + s.offset
        → (t : Scan) × (scan_loop zydis fuel hits exact_hits bytes end s ≡ some t)
          × (t.offset ≡ end)
          × All (IsReference start base end) t.xrefs
    unfolding scan_loop
    scan_loop-IsScanning zero s v f =
        let over : ltb s.offset end ≡ false = ground arith in
        (s, rw over, omega (arith, v.before), v.sound)
    scan_loop-IsScanning (suc fuel) s v f = elim (Bool-cases (ltb s.offset end)) [
      | inr over ↦ (s, rw over, omega (arith, v.before, ltb→ge _ _ over), v.sound)
      | inl more ↦
          let (next, further) = scan_round-IsScanning s v (ltb→lt _ _ more) in
          let (t, done, ends, sound) = scan_loop-IsScanning fuel _ next (omega arith) in
          (t, rw more done, ends, sound)
    ]

-- The scan of a section that begins inside of the file ends, at the end of its raw data or of the
-- file. Each reference that it reports is an instruction of the section, at the address that the
-- section gives its place, with an operand whose address lies in the 64 bytes from the start of the
-- reported string on, which is the first such string, or else, where it lies behind the start of
-- no string in this way, is the reported function, the first with this address. And each such
-- reference at a place that the decoder comes to from the start of the section is reported.
pub scan_section-IsReference :
    (zydis : Zydis) (law : IsZydis zydis) (hits exact_hits : List StringHit) (image : PeImage)
    (s : Section)
    → s.pointer_to_raw_data ≤ length image.bytes
    → (scan : Scan) × (scan_section zydis hits exact_hits image s ≡ some scan)
      × (scan.offset ≡ section_end s image.bytes)
      × All
          (IsReference zydis law hits exact_hits image.bytes s.pointer_to_raw_data
            ((image.image_base + s.virtual_address) % 2 ^ 64)
            (section_end s image.bytes))
          scan.xrefs
      × ((x : Xref)
          → Visits zydis hits exact_hits image.bytes
              (section_end s image.bytes)
              x.file_offset
              x.va
              s.pointer_to_raw_data
              ((image.image_base + s.virtual_address) % 2 ^ 64)
          → Refers zydis hits exact_hits image.bytes (section_end s image.bytes) x
          → Memᴰ x scan.xrefs)
unfolding scan_section
scan_section-IsReference zydis law hits exact_hits image s h =
    let (scan, done, ends, sound) =
      scan_loop-IsScanning zydis law hits exact_hits image.bytes s.pointer_to_raw_data _
        (section_end s image.bytes) (omega arith) _ _
        (record { behind = omega arith; before = omega arith; placed = omega arith; sound = _ })
        (omega arith) in
    (
      scan,
      done,
      ends,
      sound,
      λ x visits refers.
          scan_loop-complete zydis hits exact_hits image.bytes (section_end s image.bytes) x _ _
            scan _ _ visits refl refl done refers,
    )
