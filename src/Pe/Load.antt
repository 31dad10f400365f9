-- ===== src/Pe/Load.antt =====
-- Reading the headers of a PE file.
use open_scum_rcon.Base.{
  ℕ, zero, suc, ◌+◌, ◌*◌, ◌%◌, ◌^◌, ◌≤◌, ◌<◌, ◌≡◌, refl, ap, ◌⊎◌, inl, inr, true, some, List, [],
  ◌∷◌, arith, Bytes, leb, ◌==◌, Bool-cases, length, drop, length-drop,
}
use mathlib.Core.Option
use open_scum_rcon.Pe.{
  Section, PeImage, number, read_at, memcpy, read_section, read_sections, loaded, refused,
  load_headers,
}

number_total : (n : ℕ) (bytes : Bytes) → n ≤ length bytes → (v : ℕ) × (number n bytes ≡ some v)
unfolding number
number_total zero bytes h = (0, refl)
number_total (suc n) [] h = absurd (omega arith)
number_total (suc n) (b ∷ bytes) h =
    let (v, e) = number_total n bytes (omega arith) in (b + 256 * v, rw e)

pub read_at_total :
    (n index : ℕ) (b : Bytes) → index + n ≤ length b → (v : ℕ) × (read_at n index b ≡ some v)
read_at_total n index b h = number_total n (drop index b) (omega (arith, length-drop index b))

read_section_total :
    (entry : ℕ) (b : Bytes)
    → entry + 40 ≤ length b
    → (s : Section) × (read_section entry b ≡ some s)
unfolding read_section memcpy Option.bind
read_section_total entry b h =
    let fits : leb (entry + 8) (length b) ≡ true = ground arith in
    let (size, e₁) = read_at_total 4 (entry + 8) b (omega arith) in
    let (address, e₂) = read_at_total 4 (entry + 12) b (omega arith) in
    let (raw_size, e₃) = read_at_total 4 (entry + 16) b (omega arith) in
    let (raw, e₄) = read_at_total 4 (entry + 20) b (omega arith) in
    let (bits, e₅) = read_at_total 4 (entry + 36) b (omega arith) in
    rw (fits, e₁, e₂, e₃, e₄, e₅) (_, refl)

read_sections_total :
    (count entry : ℕ) (b : Bytes)
    → entry + 40 * count ≤ length b
    → (sections : List Section) × (read_sections count entry b ≡ some sections)
      × (length sections ≡ count)
unfolding read_sections Option.bind
read_sections_total zero entry b h = ([], refl, refl)
read_sections_total (suc count) entry b h =
    let (s, e) = read_section_total entry b (omega arith) in
    let (sections, es, counted) = read_sections_total count (entry + 40) b (omega arith) in
    (s ∷ sections, rw (e, es), ap suc counted)

-- Where the headers and the whole section table that they announce lie inside of a file below 4 GB,
-- loading them reads nothing outside of it: the file is refused, or the image has the bytes of the
-- file and as many sections as its header says.
pub load_headers_total :
    (pe_offset count optional : ℕ) (b : Bytes)
    → length b < 2 ^ 32
    → read_at 2 (pe_offset + 6) b ≡ some count
    → read_at 2 (pe_offset + 20) b ≡ some optional
    → pe_offset + 56 ≤ length b
    → pe_offset + 24 + optional + 40 * count ≤ length b
    → (load_headers pe_offset b ≡ some refused)
      ⊎ ((image : PeImage) × (load_headers pe_offset b ≡ some (loaded image))
          × (image.bytes ≡ b)
          × (length image.sections ≡ count))
unfolding load_headers Option.bind
load_headers_total pe_offset count optional b small counted sized header table =
    let at_count : (pe_offset + 6) % 2 ^ 32 ≡ pe_offset + 6 = omega arith in
    let at_optional : (pe_offset + 20) % 2 ^ 32 ≡ pe_offset + 20 = omega arith in
    let at_header : (pe_offset + 24) % 2 ^ 32 ≡ pe_offset + 24 = omega arith in
    let (magic, e₁) = read_at_total 2 (pe_offset + 24) b (omega arith) in
    let (base, e₂) = read_at_total 8 (pe_offset + 24 + 24) b (omega arith) in
    let (sections, e₃, many) =
      read_sections_total count (pe_offset + 24 + optional) b (omega arith) in
    rw (at_count, at_optional, at_header, counted, sized, e₁)
      (elim (Bool-cases (magic == 0x20b)) [
        | inr other ↦ rw other (inl refl)
        | inl right ↦
            rw (right, e₂, e₃)
              (inr (record { bytes = b; image_base = base; sections = sections }, refl, refl, many))
      ])
