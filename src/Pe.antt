-- ===== src/Pe.antt =====
-- tools/pe_xref_scanner/main.cpp: the sections of a PE file and the mapping of its addresses.
-- A std::uint32_t is a number below 2 ^ 32; the sum of two wraps, as it does in the source. The
-- result -1 of a search is `none`, nullptr too.
pub mod Mapping
pub mod Load
pub mod Search
pub mod Scan
use open_scum_rcon.Base.{
  ℕ, zero, suc, ◌+◌, ◌-◌, ◌*◌, ◌/◌, ◌%◌, ◌^◌, ◌≤◌, ◌<◌, min, ◌≡◌, refl, sym, ap, ◌∙◌, subst, ◌≢◌,
  ◌↔◌, ◌⊎◌, inl, inr, Bool, true, false, not, ◌&&◌, ◌||◌, Option, none, some, List, [], ◌∷◌, ◌++◌,
  map, append-nil, append_assoc, arith, Bytes, IsBytes, text, same_text, same_text_iff, any_byte,
  all_bytes, ltb, leb, ◌==◌, if◌then◌else◌, ltb→lt, ltb→ge, leb→le, ==_iff, Bool-cases,
  Option-cases, length, get_or, take, drop, replicate, length-append, take-append-drop, length-take,
  length-drop, length-replicate, take_all, drop_all, take-append_eq, drop-append_eq,
  take-append_right, drop-drop, get_or-drop, get_or-take, get_or_inside, take-append_left,
  drop-append_left, drop-append_right, get_or-append_left, get_or-append_right, All, All-append,
  All-append_left, All-append_right, All-take, All-drop, All-get_or, All-get_or_lt,
}
use mathlib.Core.Option

pub record Section : Type 0 where
  pub name : Bytes
  pub virtual_address : ℕ
  pub virtual_size : ℕ
  pub pointer_to_raw_data : ℕ
  pub size_of_raw_data : ℕ
  pub executable : Bool

pub record PeImage : Type 0 where
  pub bytes : Bytes
  pub image_base : ℕ
  pub sections : List Section

-- The condition of `fileOffsetToRva`.
abbrev pub holds_offset : ℕ → Section → Bool
holds_offset file_offset s =
    leb s.pointer_to_raw_data file_offset
    && ltb file_offset ((s.pointer_to_raw_data + s.size_of_raw_data) % 2 ^ 32)

unfoldable pub file_offset_to_rva : ℕ → List Section → Option ℕ
file_offset_to_rva file_offset [] = none
file_offset_to_rva file_offset (s ∷ sections) =
    if holds_offset file_offset s
    then some (s.virtual_address + (file_offset - s.pointer_to_raw_data))
    else file_offset_to_rva file_offset sections

-- The condition of `rvaToFileOffset`.
abbrev pub holds_rva : ℕ → Section → Bool
holds_rva rva s =
    leb s.virtual_address rva && ltb rva ((s.virtual_address + s.virtual_size) % 2 ^ 32)

unfoldable pub rva_to_file_offset : ℕ → List Section → Option ℕ
rva_to_file_offset rva [] = none
rva_to_file_offset rva (s ∷ sections) =
    if holds_rva rva s
    then some (s.pointer_to_raw_data + (rva - s.virtual_address))
    else rva_to_file_offset rva sections

unfoldable pub file_offset_to_va : ℕ → PeImage → ℕ
file_offset_to_va file_offset image = elim (file_offset_to_rva file_offset image.sections) [
  | none ↦ 0
  | some rva ↦ (image.image_base + rva) % 2 ^ 64
]

unfoldable pub find_executable_section : List Section → Option Section
find_executable_section [] = none
find_executable_section (s ∷ sections) =
    if s.executable then some s else find_executable_section sections

-- A read of so many bytes at an index of a std::vector, little-endian; `none` is a read outside of
-- it, of which C++ says nothing.
unfoldable pub number : ℕ → Bytes → Option ℕ
number zero bytes = some 0
number (suc n) [] = none
number (suc n) (b ∷ bytes) = Option.map (λ high. b + 256 * high) (number n bytes)

abbrev pub read_at : ℕ → ℕ → Bytes → Option ℕ
read_at n index bytes = number n (drop index bytes)

unfoldable pub memcpy : ℕ → ℕ → Bytes → Option Bytes
memcpy n index bytes =
    if leb (index + n) (length bytes) then some (take n (drop index bytes)) else none

-- A char array that ends at its first NUL, as a std::string.
unfoldable pub until_nul : Bytes → Bytes
until_nul [] = []
until_nul (c ∷ cs) = if c == 0 then [] else c ∷ until_nul cs

-- `characteristics & IMAGE_SCN_MEM_EXECUTE`
abbrev pub is_executable : ℕ → Bool
is_executable characteristics = characteristics / 2 ^ 29 % 2 == 1

-- One round of the loop over the section table.
unfoldable pub read_section : ℕ → Bytes → Option Section
unfolding number memcpy until_nul
read_section entry b = Option.bind (memcpy 8 entry b) (λ name.
    Option.bind (read_at 4 (entry + 8) b) (λ virtual_size.
      Option.bind (read_at 4 (entry + 12) b) (λ virtual_address.
        Option.bind (read_at 4 (entry + 16) b) (λ size_of_raw_data.
          Option.bind (read_at 4 (entry + 20) b) (λ pointer_to_raw_data.
            Option.bind (read_at 4 (entry + 36) b) (λ characteristics. some (record {
              name = until_nul name;
              virtual_address = virtual_address;
              virtual_size = virtual_size;
              pointer_to_raw_data = pointer_to_raw_data;
              size_of_raw_data = size_of_raw_data;
              executable = is_executable characteristics;
            })))))))

unfoldable pub read_sections : ℕ → ℕ → Bytes → Option (List Section)
read_sections zero entry b = some []
read_sections (suc count) entry b =
    Option.bind (read_section entry b)
      (λ s. Option.map (λ sections. s ∷ sections) (read_sections count (entry + 40) b))

-- What `loadPe` leaves: an image, or `return false`.
pub data Loaded : Type 0 where
  loaded : PeImage → Loaded
  refused : Loaded

-- Behind the check of the signature.
unfoldable pub load_headers : ℕ → Bytes → Option Loaded
load_headers pe_offset b =
    Option.bind (read_at 2 ((pe_offset + 6) % 2 ^ 32) b) (λ number_of_sections.
      Option.bind (read_at 2 ((pe_offset + 20) % 2 ^ 32) b) (λ size_of_optional_header.
        let optional_header_offset = (pe_offset + 24) % 2 ^ 32 in
        Option.bind (read_at 2 optional_header_offset b) (λ magic.
          if not (magic == 0x20b)
          then some refused
          else Option.bind (read_at 8 (optional_header_offset + 24) b) (λ image_base.
            Option.bind
              (read_sections number_of_sections (optional_header_offset + size_of_optional_header)
                b)
              (λ sections.
                some
                  (loaded (record { bytes = b; image_base = image_base; sections = sections })))))))

-- `loadPe`, on the bytes of a file that could be opened; `none` where it reads outside of them.
unfoldable pub load_pe : Bytes → Option Loaded
load_pe b =
    if ltb (length b) 0x40 || not (get_or b 0 0 == b'M') || not (get_or b 1 0 == b'Z')
    then some refused
    else Option.bind (read_at 4 0x3c b) (λ pe_offset.
      if leb (length b) ((pe_offset + 24) % 2 ^ 32)
      then some refused
      else Option.bind (read_at 1 pe_offset b) (λ p.
        if not (p == b'P')
        then some refused
        else Option.bind (read_at 1 ((pe_offset + 1) % 2 ^ 32) b)
            (λ e. if not (e == b'E') then some refused else load_headers pe_offset b)))
