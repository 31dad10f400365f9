-- ===== src/Pe/Scan/Hits.antt =====
-- tools/pe_xref_scanner/main.cpp, `main`: the strings and the stored pointers that are searched.
use open_scum_rcon.Base.{
  ℕ, zero, suc, ◌+◌, ◌/◌, ◌%◌, ◌^◌, none, some, List, [], ◌∷◌, ◌++◌, map, Bytes, text,
  if◌then◌else◌,
}
use open_scum_rcon.Pe.{Section, PeImage, file_offset_to_rva, holds_rva}
use open_scum_rcon.Pe.Search.{find_all_ascii, find_all_utf16}
use open_scum_rcon.Pe.Scan.{StringHit}

-- The loop over the places of one target in one encoding; those in no section are passed over.
unfoldable pub place_hits : PeImage → Bytes → Bytes → List ℕ → List StringHit
place_hits image target encoding [] = []
place_hits image target encoding (off ∷ offsets) =
    let rest = place_hits image target encoding offsets in
    elim (file_offset_to_rva off image.sections) [
      | none ↦ rest
      | some rva ↦
          record { label = target; encoding = encoding; va = (image.image_base + rva) % 2 ^ 64 }
          ∷ rest
    ]

-- The loop over the targets.
unfoldable pub string_hits : PeImage → List Bytes → List StringHit
unfolding place_hits
string_hits image [] = []
string_hits image (target ∷ targets) =
    place_hits image target (text "ASCII") (find_all_ascii image.bytes target)
    ++ place_hits image target (text "UTF-16") (find_all_utf16 image.bytes target)
    ++ string_hits image targets

-- The name of the section that holds an RVA, or "?".
unfoldable pub section_name : ℕ → List Section → Bytes
section_name rva [] = text "?"
section_name rva (s ∷ sections) = if holds_rva rva s then s.name else section_name rva sections

-- The eight bytes of an address, the lowest first.
unfoldable pub pointer_bytes : ℕ → ℕ → Bytes
pointer_bytes zero va = []
pointer_bytes (suc n) va = va % 256 ∷ pointer_bytes n (va / 256)

pub record PointerHit : Type 0 where
  pub file_offset : ℕ
  pub va : ℕ
  pub section : Bytes

-- The entry of the report for one place at which an address is stored.
unfoldable pub pointer_hit : PeImage → ℕ → PointerHit
unfolding section_name
pointer_hit image off = elim (file_offset_to_rva off image.sections) [
  | none ↦ record { file_offset = off; va = 0; section = text "?" }
  | some rva ↦ record {
    file_offset = off;
    va = (image.image_base + rva) % 2 ^ 64;
    section = section_name rva image.sections;
  }
]

unfoldable pub pointer_hits : PeImage → ℕ → List PointerHit
unfolding pointer_bytes pointer_hit
pointer_hits image va = map (pointer_hit image) (find_all_ascii image.bytes (pointer_bytes 8 va))
