-- ===== src/Pe/Scan.antt =====
-- tools/pe_xref_scanner/main.cpp: the scan of the executable section in `main`, `dumpContext` and
-- `dumpFunctionAt`. Zydis is a parameter; the file that is written is the list of its entries.
pub mod References
pub mod Complete
pub mod Matches
pub mod Windows
pub mod Hits
use open_scum_rcon.Base.{
  ℕ, zero, suc, ◌+◌, ◌-◌, ◌*◌, ◌/◌, ◌%◌, ◌^◌, ◌≤◌, ◌<◌, min, ◌≡◌, refl, sym, ap, ◌∙◌, subst, ◌≢◌,
  ◌↔◌, ◌⊎◌, inl, inr, Bool, true, false, not, ◌&&◌, ◌||◌, Option, none, some, List, [], ◌∷◌, ◌++◌,
  map, append-nil, append_assoc, arith, Bytes, IsBytes, text, same_text, same_text_iff, any_byte,
  all_bytes, ltb, leb, ◌==◌, if◌then◌else◌, ltb→lt, ltb→ge, leb→le, ==_iff, Bool-cases,
  Option-cases, length, get_or, take, drop, replicate, length-append, take-append-drop, length-take,
  length-drop, length-replicate, take_all, drop_all, take-append_eq, drop-append_eq,
  take-append_right, drop-drop, get_or-drop, get_or-take, get_or_inside, take-append_left,
  drop-append_left, drop-append_right, get_or-append_left, get_or-append_right, All, All-append,
  All-append_left, All-append_right, All-take, All-drop, All-get_or, All-get_or_lt,
}
use mathlib.Core.Option
use open_scum_rcon.Pe.{Section, PeImage, file_offset_to_va, rva_to_file_offset}

pub data Operand : Type 0 where
  memory : Bool → ℕ → Operand
  immediate : Bool → ℕ → Operand
  other : Operand

pub record Instruction : Type 0 where
  pub length : ℕ
  pub operands : List Operand

-- The decoder, on the bytes that it may read. The flag of `memory` says that the base is RIP, that
-- of `immediate` that the value is relative.
pub record Zydis : Type 0 where
  pub decode_full : Bytes → Option Instruction
  pub calc_absolute_address : Instruction → Operand → ℕ → Option ℕ
  pub disassemble_intel : ℕ → Bytes → Option (ℕ × Bytes)

-- An instruction has at least one byte, and no more than were there.
pub record IsZydis (zydis : Zydis) : Type 0 where
  pub decoded :
      (window : Bytes) (i : Instruction)
      → zydis.decode_full window ≡ some i
      → (0 < i.length) × (i.length ≤ length window)
  pub disassembled :
      (address : ℕ) (window : Bytes) (n : ℕ) (shown : Bytes)
      → zydis.disassemble_intel address window ≡ some (n, shown)
      → (0 < n) × (n ≤ length window)

pub record StringHit : Type 0 where
  pub label : Bytes
  pub encoding : Bytes
  pub va : ℕ

-- A hit of the scan, for which `dumpContext` is called.
pub record Xref : Type 0 where
  pub va : ℕ
  pub file_offset : ℕ
  pub hit : StringHit

-- The locals of the loop; `xref_count` is the length of `xrefs`, which has the latest first.
pub record Scan : Type 0 where
  pub offset : ℕ
  pub runtime_address : ℕ
  pub instruction_count : ℕ
  pub xrefs : List Xref

abbrev pub within : ℕ → StringHit → Bool
within address h = leb h.va address && ltb address ((h.va + 64) % 2 ^ 64)

unfoldable pub first_hit : (StringHit → Bool) → List StringHit → Option StringHit
first_hit p [] = none
first_hit p (h ∷ hits) = if p h then some h else first_hit p hits

-- The string hit at an address, or else the function.
unfoldable pub matched : List StringHit → List StringHit → ℕ → Option StringHit
matched hits exact_hits address = elim (first_hit (within address) hits) [
  | some h ↦ some h
  | none ↦ first_hit (λ h. address == h.va) exact_hits
]

-- From an offset on, up to an end.
abbrev pub window : Bytes → ℕ → ℕ → Bytes
window bytes offset end = take (end - offset) (drop offset bytes)

abbrev pub section_end : Section → Bytes → ℕ
section_end s bytes = min (length bytes) (s.pointer_to_raw_data + s.size_of_raw_data)

module _ (zydis : Zydis) where
  open zydis use {decode_full, calc_absolute_address, disassemble_intel}

  unfoldable pub absolute_address : Instruction → ℕ → Operand → Option ℕ
  absolute_address i runtime_address (memory is_rip displacement) =
      if is_rip then calc_absolute_address i (memory is_rip displacement) runtime_address else none
  absolute_address i runtime_address (immediate is_relative value) =
      if is_relative
      then calc_absolute_address i (immediate is_relative value) runtime_address
      else some value
  absolute_address i runtime_address other = none

  -- The loop over the operands.
  unfoldable pub scan_operands :
      List StringHit → List StringHit → Instruction → ℕ → ℕ → List Operand → List Xref → List Xref
  scan_operands hits exact_hits i address offset [] xrefs = xrefs
  scan_operands hits exact_hits i address offset (op ∷ operands) xrefs =
      let found = Option.bind (absolute_address i address op) (matched hits exact_hits) in
      scan_operands hits exact_hits i address offset operands (elim found [
        | none ↦ xrefs
        | some h ↦ record { va = address; file_offset = offset; hit = h } ∷ xrefs
      ])

  -- One round of the `while` loop.
  unfoldable pub scan_round : List StringHit → List StringHit → Bytes → ℕ → Scan → Scan
  unfolding scan_operands
  scan_round hits exact_hits bytes end s = elim (decode_full (window bytes s.offset end)) [
    | none ↦ record s { offset = s.offset + 1; runtime_address = (s.runtime_address + 1) % 2 ^ 64 }
    | some i ↦ record {
      offset = s.offset + i.length;
      runtime_address = (s.runtime_address + i.length) % 2 ^ 64;
      instruction_count = s.instruction_count + 1;
      xrefs = scan_operands hits exact_hits i s.runtime_address s.offset i.operands s.xrefs;
    }
  ]

  -- `none` means that the fuel ran out.
  unfoldable pub scan_loop : ℕ → List StringHit → List StringHit → Bytes → ℕ → Scan → Option Scan
  unfolding scan_round
  scan_loop zero hits exact_hits bytes end s = if ltb s.offset end then none else some s
  scan_loop (suc fuel) hits exact_hits bytes end s =
      let rest =
        scan_loop fuel hits exact_hits bytes end (scan_round hits exact_hits bytes end s) in
      if ltb s.offset end then rest else some s

  -- The scan of a section, from its first byte.
  unfoldable pub scan_section : List StringHit → List StringHit → PeImage → Section → Option Scan
  scan_section hits exact_hits image s =
      let end = section_end s image.bytes in
      scan_loop (end - s.pointer_to_raw_data) hits exact_hits image.bytes end (record {
        offset = s.pointer_to_raw_data;
        runtime_address = (image.image_base + s.virtual_address) % 2 ^ 64;
        instruction_count = 0;
        xrefs = [];
      })

  -- What a line of a dump is made of: `shown` is `none` where the bytes could not be decoded.
  pub record Line : Type 0 where
    pub offset : ℕ
    pub address : ℕ
    pub size : ℕ
    pub shown : Option Bytes
    pub marked : Bool

  abbrev pub line_at : ℕ → ℕ → ℕ → Option (ℕ × Bytes) → Line
  line_at xref offset address none = record {
    offset = offset;
    address = address;
    size = 1;
    shown = none;
    marked = false;
  }
  line_at xref offset address (some (n, shown)) = record {
    offset = offset;
    address = address;
    size = n;
    shown = some shown;
    marked = leb offset xref && ltb xref (offset + n);
  }

  -- The loop of both dumps; `none` means that the fuel ran out.
  unfoldable pub dump_loop : ℕ → Bytes → ℕ → ℕ → ℕ → ℕ → Option (List Line)
  dump_loop zero bytes xref end offset address = if ltb offset end then none else some []
  dump_loop (suc fuel) bytes xref end offset address =
      let line =
        line_at xref offset address (disassemble_intel address (window bytes offset end)) in
      let rest =
        dump_loop fuel bytes xref end (offset + line.size) ((address + line.size) % 2 ^ 64) in
      if ltb offset end then Option.map (λ lines. line ∷ lines) rest else some []

  unfoldable pub dump_context : PeImage → ℕ → Option (List Line)
  dump_context image xref_file_offset =
      let window_start = if ltb 400 xref_file_offset then xref_file_offset - 400 else 0 in
      let window_end = min (length image.bytes) (xref_file_offset + 600) in
      dump_loop (window_end - window_start) image.bytes xref_file_offset window_end window_start
        (file_offset_to_va window_start image)

  -- The line that no section has the address, or the lines of the function; none of them is marked,
  -- for which the byte behind the last stands.
  unfoldable pub dump_function_at : PeImage → ℕ → ℕ → Option (Option (List Line))
  dump_function_at image va max_bytes =
      elim (rva_to_file_offset ((va + (2 ^ 64 - image.image_base)) % 2 ^ 64) image.sections) [
        | none ↦ some none
        | some offset ↦
            let end = min (length image.bytes) ((offset + max_bytes) % 2 ^ 64) in
            Option.map some (dump_loop (end - offset) image.bytes end end offset va)
      ]
