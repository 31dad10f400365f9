-- ===== src/Pe/Mapping.antt =====
-- File offsets and addresses of sections that do not overlap in memory.
use open_scum_rcon.Base.{
  ℕ, ◌+◌, ◌-◌, ◌^◌, ◌≤◌, ◌<◌, ◌≡◌, refl, ap, ◌⊎◌, inl, inr, false, none, some, List, [], ◌∷◌, arith,
  Bool-cases, All,
}
use open_scum_rcon.Pe.{Section, holds_offset, holds_rva, file_offset_to_rva, rva_to_file_offset}

-- In memory, with all of its raw data, the one section ends before the other begins.
abbrev pub IsBelow : Section → Section → Type 0
IsBelow s t =
    (s.virtual_address + s.virtual_size ≤ t.virtual_address)
    × (s.virtual_address + s.size_of_raw_data ≤ t.virtual_address)

abbrev pub IsLaidOut : List Section → Type 0
IsLaidOut [] = Unit {0}
IsLaidOut (s ∷ sections) =
    (s.virtual_address + s.virtual_size < 2 ^ 32)
    × (s.pointer_to_raw_data + s.size_of_raw_data < 2 ^ 32)
    × All (IsBelow s) sections
    × IsLaidOut sections

All-above :
    (rva : ℕ) (s : Section) (sections : List Section)
    → rva < s.virtual_address + s.size_of_raw_data
    → All (IsBelow s) sections
    → rva_to_file_offset rva sections ≡ none
unfolding rva_to_file_offset
All-above rva s [] h below = refl
All-above rva s (t ∷ sections) h (below, belows) =
    let misses : holds_rva rva t ≡ false = ground arith in
    rw misses (All-above rva s sections h belows)

found_above :
    (file_offset rva : ℕ) (s : Section) (sections : List Section)
    → All (IsBelow s) sections
    → file_offset_to_rva file_offset sections ≡ some rva
    → s.virtual_address + s.virtual_size ≤ rva
unfolding file_offset_to_rva
found_above file_offset rva s [] below e = cc
found_above file_offset rva s (t ∷ sections) (below, belows) e =
    elim (Bool-cases (holds_offset file_offset t)) [
      | inr other ↦ found_above file_offset rva s sections belows (rw other at e)
      | inl here ↦
          let at_t : t.virtual_address + (file_offset - t.pointer_to_raw_data) ≡ rva =
            cc (rw here at e) in
          omega (arith, below.0)
    ]

-- The RVA that a file offset gets, in an image whose sections are laid out in memory in order, is
-- mapped back to this file offset or to nothing; it is never mapped to another.
pub rva_to_file_offset-file_offset_to_rva :
    (file_offset rva : ℕ) (sections : List Section)
    → IsLaidOut sections
    → file_offset_to_rva file_offset sections ≡ some rva
    → (rva_to_file_offset rva sections ≡ some file_offset)
      ⊎ (rva_to_file_offset rva sections ≡ none)
unfolding file_offset_to_rva rva_to_file_offset
rva_to_file_offset-file_offset_to_rva file_offset rva [] v e = cc
rva_to_file_offset-file_offset_to_rva file_offset rva (s ∷ sections) (fits, raw_fits, below, v) e =
    elim (Bool-cases (holds_offset file_offset s)) [
      | inr other ↦
          let later = rw other at e in
          let high = found_above file_offset rva s sections below later in
          let misses : holds_rva rva s ≡ false = ground arith in
          rw misses (rva_to_file_offset-file_offset_to_rva file_offset rva sections v later)
      | inl here ↦
          let at_s : s.virtual_address + (file_offset - s.pointer_to_raw_data) ≡ rva =
            cc (rw here at e) in
          let inside : (s.pointer_to_raw_data ≤ file_offset)
              × (file_offset < s.pointer_to_raw_data + s.size_of_raw_data) =
            ground arith in
          elim (Bool-cases (holds_rva rva s)) [
            | inl back ↦ rw back (inl (ap some (omega (arith, inside.0))))
            | inr padding ↦
                rw padding (inr (All-above rva s sections (omega (arith, inside.1)) below))
          ]
    ]
