-- ===== src/Pe/Scan/Complete.antt =====
-- The scan of a section passes over no reference.
use open_scum_rcon.Base.{
  ℕ, zero, suc, ◌+◌, ◌%◌, ◌^◌, ◌<◌, ◌≡◌, refl, inl, inr, true, none, some, List, [], ◌∷◌, arith,
  Bytes, ltb, Bool-cases, Option-cases,
}
use mathlib.Core.Option
use mathlib.Core.List.{Memᴰ}
use open_scum_rcon.Pe.Scan.{
  Operand, Instruction, Zydis, StringHit, Xref, Scan, matched, window, absolute_address,
  scan_operands, scan_round, scan_loop,
}
use open_scum_rcon.Pe.Scan.Matches.{Matches, Matches-matched}

module _ (zydis : Zydis) (hits exact_hits : List StringHit) (bytes : Bytes) (end : ℕ) where
  -- The places that a decoder comes to, from one place and address on: the next is behind the
  -- instruction, or one byte further where there is none.
  pub data Visits (to at : ℕ) : ℕ → ℕ → Type 0 where
    arrives : Visits to at to at
    skips :
        (o va : ℕ)
        → o < end
        → zydis.decode_full (window bytes o end) ≡ none
        → Visits to at (o + 1) ((va + 1) % 2 ^ 64)
        → Visits to at o va
    steps :
        (o va : ℕ) (i : Instruction)
        → o < end
        → zydis.decode_full (window bytes o end) ≡ some i
        → Visits to at (o + i.length) ((va + i.length) % 2 ^ 64)
        → Visits to at o va

  -- The operand of an instruction at the place refers to the hit.
  pub record Refers (x : Xref) : Type 0 where
    pub instruction : Instruction
    pub before : x.file_offset < end
    pub decoded : zydis.decode_full (window bytes x.file_offset end) ≡ some instruction
    pub operand : Operand
    pub of_instruction : Memᴰ operand instruction.operands
    pub address : ℕ
    pub addressed : absolute_address zydis instruction x.va operand ≡ some address
    pub matches : Matches hits exact_hits address x.hit

  scan_operands-keeps :
      (i : Instruction) (address offset : ℕ) (operands : List Operand) (xrefs : List Xref)
      (x : Xref)
      → Memᴰ x xrefs
      → Memᴰ x (scan_operands zydis hits exact_hits i address offset operands xrefs)
  unfolding scan_operands
  scan_operands-keeps i address offset [] xrefs x m = m
  scan_operands-keeps i address offset (op ∷ operands) xrefs x m =
      elim (Option-cases
        (Option.bind (absolute_address zydis i address op) (matched hits exact_hits))) [
          | inl nothing ↦ rw nothing (scan_operands-keeps i address offset operands xrefs x m)
          | inr (h, hit) ↦ rw hit (scan_operands-keeps i address offset operands _ x (Memᴰ.tail m))
        ]

  scan_operands-complete :
      (i : Instruction) (address offset : ℕ) (operands : List Operand) (xrefs : List Xref)
      (op : Operand) (a : ℕ) (h : StringHit)
      → Memᴰ op operands
      → absolute_address zydis i address op ≡ some a
      → matched hits exact_hits a ≡ some h
      → Memᴰ
          (record { va = address; file_offset = offset; hit = h })
          (scan_operands zydis hits exact_hits i address offset operands xrefs)
  unfolding scan_operands Option.bind
  scan_operands-complete i address offset [] xrefs op a h m there hit = elim m [ ]
  scan_operands-complete i address offset (op' ∷ operands) xrefs op a h (Memᴰ.head same) there hit =
      let there' : absolute_address zydis i address op' ≡ some a = cc in
      rw (there', hit, scan_operands)
        (scan_operands-keeps i address offset operands _ _ (Memᴰ.head refl))
  scan_operands-complete i address offset (op' ∷ operands) xrefs op a h (Memᴰ.tail m) there hit =
      scan_operands-complete i address offset operands _ op a h m there hit

  scan_round-keeps :
      (s : Scan) (x : Xref)
      → Memᴰ x s.xrefs
      → Memᴰ x (scan_round zydis hits exact_hits bytes end s).xrefs
  unfolding scan_round
  scan_round-keeps s x m = elim (Option-cases (zydis.decode_full (window bytes s.offset end))) [
    | inl failed ↦ rw (failed, scan_round) m
    | inr (i, e) ↦
        rw (e, scan_round) (scan_operands-keeps i s.runtime_address s.offset i.operands s.xrefs x m)
  ]

  scan_loop-keeps :
      (fuel : ℕ) (s t : Scan) (x : Xref)
      → scan_loop zydis fuel hits exact_hits bytes end s ≡ some t
      → Memᴰ x s.xrefs
      → Memᴰ x t.xrefs
  unfolding scan_loop
  scan_loop-keeps zero s t x e m = elim (Bool-cases (ltb s.offset end)) [
    | inl more ↦ cc (rw more at e)
    | inr over ↦ let same : s ≡ t = cc (rw over at e) in rw (← same) m
  ]
  scan_loop-keeps (suc fuel) s t x e m = elim (Bool-cases (ltb s.offset end)) [
    | inl more ↦ scan_loop-keeps fuel _ t x (rw more at e) (scan_round-keeps s x m)
    | inr over ↦ let same : s ≡ t = cc (rw over at e) in rw (← same) m
  ]

  scan_round-complete :
      (s : Scan) (x : Xref)
      → x.file_offset ≡ s.offset
      → x.va ≡ s.runtime_address
      → Refers x
      → Memᴰ x (scan_round zydis hits exact_hits bytes end s).xrefs
  unfolding scan_round
  scan_round-complete s x here at r =
      let e : zydis.decode_full (window bytes s.offset end) ≡ some r.instruction =
        rw (← here) r.decoded in
      rw (e, scan_round, ← here, ← at)
        (scan_operands-complete r.instruction x.va x.file_offset r.instruction.operands s.xrefs
          r.operand r.address x.hit r.of_instruction r.addressed
          (Matches-matched r.address hits exact_hits x.hit r.matches))

  skipped :
      (s : Scan)
      → zydis.decode_full (window bytes s.offset end) ≡ none
      → ((scan_round zydis hits exact_hits bytes end s).offset ≡ s.offset + 1)
        × ((scan_round zydis hits exact_hits bytes end s).runtime_address
            ≡ (s.runtime_address + 1) % 2 ^ 64)
  unfolding scan_round
  skipped s e = rw (e, scan_round) (refl, refl)

  stepped :
      (s : Scan) (i : Instruction)
      → zydis.decode_full (window bytes s.offset end) ≡ some i
      → ((scan_round zydis hits exact_hits bytes end s).offset ≡ s.offset + i.length)
        × ((scan_round zydis hits exact_hits bytes end s).runtime_address
            ≡ (s.runtime_address + i.length) % 2 ^ 64)
  unfolding scan_round
  stepped s i e = rw (e, scan_round) (refl, refl)

  more_rounds :
      (fuel : ℕ) (s t : Scan)
      → s.offset < end
      → scan_loop zydis fuel hits exact_hits bytes end s ≡ some t
      → (left : ℕ) × (fuel ≡ suc left)
        × (scan_loop zydis left hits exact_hits bytes end
              (scan_round zydis hits exact_hits bytes end s)
            ≡ some t)
  unfolding scan_loop
  more_rounds zero s t more e =
      let under : ltb s.offset end ≡ true = ground arith in cc (rw under at e)
  more_rounds (suc fuel) s t more e =
      let under : ltb s.offset end ≡ true = ground arith in (fuel, refl, rw under at e)

  pub scan_loop-complete :
      (x : Xref) (fuel : ℕ) (s t : Scan) (o va : ℕ)
      → Visits x.file_offset x.va o va
      → o ≡ s.offset
      → va ≡ s.runtime_address
      → scan_loop zydis fuel hits exact_hits bytes end s ≡ some t
      → Refers x
      → Memᴰ x t.xrefs
  scan_loop-complete x fuel s t _ _ arrives here at e r =
      let (left, _, e') = more_rounds fuel s t (rw (← here) r.before) e in
      scan_loop-keeps left _ t x e' (scan_round-complete s x here at r)
  scan_loop-complete x fuel s t o va (skips _ _ under failed rest) here at e r =
      let (left, _, e') = more_rounds fuel s t (rw (← here) under) e in
      let (further, address) = skipped s (rw (← here) failed) in
      scan_loop-complete x left _ t (o + 1) ((va + 1) % 2 ^ 64) rest (rw (further, ← here) refl)
        (rw (address, ← at) refl) e' r
  scan_loop-complete x fuel s t o va (steps _ _ i under found rest) here at e r =
      let (left, _, e') = more_rounds fuel s t (rw (← here) under) e in
      let (further, address) = stepped s i (rw (← here) found) in
      scan_loop-complete x left _ t (o + i.length) ((va + i.length) % 2 ^ 64) rest
        (rw (further, ← here) refl) (rw (address, ← at) refl) e' r
