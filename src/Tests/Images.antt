-- ===== src/Tests/Images.antt =====
-- The scanner of PE files at a concrete file of two sections.
use open_scum_rcon.Base.{
  starts_with, ℕ, ◌+◌, ◌%◌, ◌^◌, ◌≤◌, ◌<◌, ◌≡◌, refl, ◌⊎◌, true, false, none, some, [], ◌∷◌, ◌++◌,
  arith, Bytes, text, length, replicate, All,
}
use open_scum_rcon.Pe.{
  Section, PeImage, file_offset_to_rva, rva_to_file_offset, number, load_headers, loaded, refused,
}
use open_scum_rcon.Pe.Mapping.{rva_to_file_offset-file_offset_to_rva}
use open_scum_rcon.Pe.Load.{load_headers_total}
use open_scum_rcon.Pe.Search.{
  same_char, begins_with, search, find_loop, is_ascii, find_all_ascii, positions,
  find_all_ascii-positions,
}
use open_scum_rcon.Pe.Scan.{
  memory, Instruction, Zydis, IsZydis, StringHit, Xref, Scan, scan_section, section_end,
}
use open_scum_rcon.Pe.Scan.Complete.{Visits, Refers}
use mathlib.Core.List.{Memᴰ}
use open_scum_rcon.Pe.Scan.References.{IsReference, scan_section-IsReference}

abbrev code_section : Section
code_section = record {
  name = text ".text";
  virtual_address = 4096;
  virtual_size = 3;
  pointer_to_raw_data = 4;
  size_of_raw_data = 6;
  executable = true;
}

abbrev data_section : Section
data_section = record {
  name = text ".data";
  virtual_address = 8192;
  virtual_size = 8;
  pointer_to_raw_data = 10;
  size_of_raw_data = 2;
  executable = false;
}

rva_to_file_offset-file_offset_to_rva_example :
    (rva_to_file_offset 4098 (code_section ∷ data_section ∷ []) ≡ some 6)
    ⊎ (rva_to_file_offset 4098 (code_section ∷ data_section ∷ []) ≡ none)
unfolding file_offset_to_rva
rva_to_file_offset-file_offset_to_rva_example =
    rva_to_file_offset-file_offset_to_rva 6 4098 (code_section ∷ data_section ∷ [])
      (omega arith, omega arith, ((omega arith, omega arith), _), (omega arith, omega arith, _, _))
      refl

-- A pointer in a file, to an address with a byte of 0x80 or more.
abbrev pointer : Bytes
pointer = 0x60 ∷ 0x7b ∷ 0x8c ∷ 0x41 ∷ 0x01 ∷ 0 ∷ 0 ∷ 0 ∷ []

find_all_ascii-positions_example :
    (is_ascii pointer ≡ true → find_all_ascii pointer pointer ≡ positions pointer 0 pointer)
    × (is_ascii pointer ≡ false → find_all_ascii pointer pointer ≡ [])
find_all_ascii-positions_example = find_all_ascii-positions pointer pointer (λ e. cc)

-- It stands there, and is not found.
pointer_stands : positions pointer 0 pointer ≡ 0 ∷ []
unfolding positions starts_with
pointer_stands = refl

pointer_missed : find_all_ascii pointer pointer ≡ []
unfolding find_all_ascii find_loop search begins_with same_char
pointer_missed = refl

-- Two that overlap.
overlapping : find_all_ascii (1 ∷ 1 ∷ 1 ∷ 2 ∷ []) (1 ∷ 1 ∷ []) ≡ 0 ∷ 1 ∷ []
unfolding find_all_ascii find_loop search begins_with same_char
overlapping = refl

-- Headers of PE32+ with no optional data directories and no section.
abbrev headers : Bytes
headers = replicate 24 0 ++ 0x0b ∷ 0x02 ∷ replicate 40 0

load_headers_total_example :
    (load_headers 0 headers ≡ some refused)
    ⊎ ((image : PeImage) × (load_headers 0 headers ≡ some (loaded image))
        × (image.bytes ≡ headers)
        × (length image.sections ≡ 0))
unfolding number
load_headers_total_example =
    load_headers_total 0 0 0 headers (omega arith) refl refl (omega arith) (omega arith)

-- A decoder of instructions of one byte, each of which refers to where it stands.
abbrev one_byte : Zydis
one_byte = record {
  decode_full = λ window. elim window [
    | [] ↦ none
    | c ∷ cs ↦ some (record { length = 1; operands = memory true 0 ∷ [] })
  ];
  calc_absolute_address = λ i op address. some address;
  disassemble_intel = λ address window. elim window [ [] ↦ none | c ∷ cs ↦ some (1, text "nop") ];
}

one_byte-IsZydis : IsZydis one_byte
one_byte-IsZydis = record { decoded = one; disassembled = shown }
  where
    one :
        (window : Bytes) (i : Instruction)
        → one_byte.decode_full window ≡ some i
        → (0 < i.length) × (i.length ≤ length window)
    one [] i e = cc
    one (c ∷ cs) i e =
        let same : record { length = 1; operands = memory true 0 ∷ [] } ≡ i = cc in
        rw (← same) (omega arith, omega arith)

    shown :
        (address : ℕ) (window : Bytes) (n : ℕ) (line : Bytes)
        → one_byte.disassemble_intel address window ≡ some (n, line)
        → (0 < n) × (n ≤ length window)
    shown address [] n line e = cc
    shown address (c ∷ cs) n line e =
        let size : 1 ≡ n = cc in rw (← size) (omega arith, omega arith)

abbrev image : PeImage
image = record {
  bytes = replicate 12 0x90;
  image_base = 65536;
  sections = code_section ∷ data_section ∷ [];
}

abbrev here : StringHit
here = record { label = text "here"; encoding = text "ASCII"; va = 69632 }

scan_section-IsReference_example :
    (scan : Scan) × (scan_section one_byte (here ∷ []) [] image code_section ≡ some scan)
    × (scan.offset ≡ section_end code_section image.bytes)
    × All
        (IsReference one_byte one_byte-IsZydis
          (here ∷ [])
          []
          image.bytes
          code_section.pointer_to_raw_data
          ((image.image_base + code_section.virtual_address) % 2 ^ 64)
          (section_end code_section image.bytes))
        scan.xrefs
    × ((x : Xref)
        → Visits one_byte
            (here ∷ [])
            []
            image.bytes
            (section_end code_section image.bytes)
            x.file_offset
            x.va
            code_section.pointer_to_raw_data
            ((image.image_base + code_section.virtual_address) % 2 ^ 64)
        → Refers one_byte (here ∷ []) [] image.bytes (section_end code_section image.bytes) x
        → Memᴰ x scan.xrefs)
scan_section-IsReference_example =
    scan_section-IsReference one_byte one_byte-IsZydis (here ∷ []) [] image code_section
      (omega arith)
