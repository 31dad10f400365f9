-- ===== src/Registry/Engine.antt =====
-- native_module/src/registry_dispatch.cpp: what is read of the engine, and the helpers that read it.
-- An object, a class, a function and an address are numbers, and 0 is the null pointer; a number of
-- 32 or 64 bits is its pattern. The getters of the game are taken to change nothing.
use open_scum_rcon.Base.{
  ℕ, ◌+◌, ◌/◌, ◌%◌, ◌^◌, Bool, false, not, ◌&&◌, ◌||◌, Option, none, some, List, [], ◌∷◌, map,
  Bytes, text, Result, ok, err, ltb, leb, ◌==◌, if◌then◌else◌, length, take,
}
use Prim.Native.String.{String}
use open_scum_rcon.Utf8.{utf8_prefix_size}

-- What VirtualQuery tells of an address.
pub record MemoryInfo : Type 0 where
  pub allocation_base : ℕ
  pub is_committed : Bool
  pub protect : ℕ

pub record Engine (World Double : Type 0) : Type 0 where
  -- The build and the hook of the replies, as godmode_trace and response_capture report them.
  pub supported_build : World → Bool
  pub capture_ready : World → Bool
  pub capture_function : World → ℕ
  -- The objects in the order of ForEachUObject, their array, and their flags.
  pub objects : World → List ℕ
  pub internal_index : World → ℕ → ℕ
  pub num_elements : World → ℕ
  pub item_at : World → ℕ → Option (ℕ × Bool)
  pub is_class_default : World → ℕ → Bool
  pub is_archetype : World → ℕ → Bool
  -- Classes and functions by name, and how they are related.
  pub find_class : World → String → ℕ
  pub find_function : World → String → ℕ
  pub params_size : World → ℕ → ℕ
  pub is_a : World → ℕ → ℕ → Bool
  pub is_child_of : World → ℕ → ℕ → Bool
  pub class_of : World → ℕ → ℕ
  pub outer_of : World → ℕ → ℕ
  pub default_object : World → ℕ → ℕ
  pub implements : World → ℕ → ℕ → Bool
  -- The value of a property, if there is one of this name and type.
  pub object_value : World → ℕ → String → Option ℕ
  pub string_value : World → ℕ → String → Option (Option (List ℕ))
  pub int_value : World → ℕ → String → Option ℕ
  pub int64_value : World → ℕ → String → Option ℕ
  pub byte_value : World → ℕ → String → Option ℕ
  pub bool_value : World → ℕ → String → Option Bool
  pub float_value : World → ℕ → String → Option Double
  pub class_array : World → ℕ → String → Option (List ℕ)
  pub array_count : World → ℕ → String → Option ℕ
  -- The UTF-16 units that a function of an object returns; `none` where the length is negative.
  pub returned_string : World → ℕ → ℕ → Option (List ℕ)
  pub has_profile_reflection : World → Bool
  pub profile_value : World → ℕ → ℕ
  pub location : World → ℕ → Double × Double × Double
  -- Memory.
  pub module_base : World → ℕ
  pub read_word : World → ℕ → Option ℕ
  pub read_bytes : World → ℕ → ℕ → Option Bytes
  pub query : World → ℕ → Option MemoryInfo
  -- The guarded call of the address function; `none` is an exception or another result.
  pub read_address : World → ℕ → Option (Option (List ℕ))
  -- Windows: the conversions, which refuse what is not valid, and the two kinds of addresses.
  pub to_utf8 : List ℕ → Option Bytes
  pub to_wide : Bytes → Option (List ℕ)
  pub is_ipv4 : Bytes → Bool
  pub is_ipv6 : Bytes → Bool
  -- What changes the game: a new object, and the call of a handler with an object and arguments.
  -- The handler gives its result, or `none` for an exception, and the replies that it sent.
  pub new_object : World → ℕ → ℕ → ℕ × World
  pub invoke : World → ℕ → ℕ → List (List ℕ) → Option Bool × List Bytes × World

-- The two latches of the file and the game.
pub record State (World : Type 0) : Type 0 where
  pub native_faulted : Bool
  pub address_faulted : Bool
  pub world : World

abbrev pub or_null : Option ℕ → ℕ
or_null none = 0
or_null (some p) = p

-- Control characters and the separator become blanks.
unfoldable pub field_byte : ℕ → ℕ
field_byte c = if ltb c 32 || c == 127 || c == b'|' then b' ' else c

unfoldable pub field : Bytes → Bytes
field value = let cleaned = map field_byte value in take (utf8_prefix_size cleaned 512) cleaned

-- `a < b` on patterns of 32 bits.
unfoldable pub int_lt : ℕ → ℕ → Bool
int_lt a b = ltb ((a + 2 ^ 31) % 2 ^ 32) ((b + 2 ^ 31) % 2 ^ 32)

module _ {World Double : Type 0} (engine : Engine World Double) where
  unfoldable pub valid : World → ℕ → Bool
  valid w object =
      let index = engine.internal_index w object in
      if object == 0
      then false
      else if leb (2 ^ 31) index || leb (engine.num_elements w) index
      then false
      else elim (engine.item_at w index) [
        | none ↦ false
        | some (held, sound) ↦ held == object && sound
      ]

  unfoldable pub live : World → ℕ → Bool
  live w object =
      valid w object && not (engine.is_class_default w object || engine.is_archetype w object)

  unfoldable pub object_property : World → ℕ → String → ℕ
  object_property w object name = or_null (engine.object_value w object name)

  unfoldable pub utf8 : Option (List ℕ) → Result Bytes
  utf8 none = err (text "invalid reflected string length")
  utf8 (some units) =
      if ltb 65536 (length units)
      then err (text "invalid reflected string length")
      else if length units == 0
      then ok []
      else elim (engine.to_utf8 units) [
        | none ↦ err (text "invalid reflected string encoding")
        | some value ↦ ok value
      ]

  unfoldable pub wide : Bytes → Result (List ℕ)
  wide [] = ok []
  wide (c ∷ value) = elim (engine.to_wide (c ∷ value)) [
    | none ↦ err (text "arguments must use valid UTF-8")
    | some units ↦ ok units
  ]

  unfoldable pub string_call : World → ℕ → ℕ → Result Bytes
  string_call w object fn = utf8 (engine.returned_string w object fn)

  -- A word of the memory, 0 where it cannot be read.
  unfoldable pub word_at : World → ℕ → ℕ
  word_at w p = if p == 0 then 0 else or_null (engine.read_word w p)

  unfoldable pub slot : World → ℕ → ℕ → ℕ
  slot w object offset = if object == 0 then 0 else elim (engine.read_word w object) [
    | none ↦ 0
    | some table ↦ word_at w ((table + offset) % 2 ^ 64)
  ]

  -- Of the protections, 0x100 is PAGE_GUARD and 1 PAGE_NOACCESS.
  unfoldable pub executable_in_game : World → ℕ → Bool
  executable_in_game w function = if function == 0 then false else elim (engine.query w function) [
    | none ↦ false
    | some info ↦
        let protect = info.protect % 2 ^ 8 in
        info.allocation_base == engine.module_base w
        && info.is_committed
        && not (info.protect / 2 ^ 8 % 2 == 1 || info.protect % 2 == 1)
        && (protect == 0x10 || protect == 0x20 || protect == 0x40 || protect == 0x80)
  ]
