-- ===== src/Protocol.antt =====
-- native_module/src/rcon_protocol.hpp and rcon_protocol.cpp: the Source RCON wire format.
-- An int32_t is its bit pattern, a number below 2 ^ 32; memory is little-endian.
pub mod Frame
pub mod Decode
pub mod Chunks
use open_scum_rcon.Base.{
  ℕ, zero, suc, ◌+◌, ◌-◌, ◌*◌, ◌/◌, ◌%◌, ◌^◌, ◌≤◌, ◌<◌, min, ◌≡◌, refl, sym, ap, ◌∙◌, subst, ◌≢◌,
  ◌↔◌, ◌⊎◌, inl, inr, Bool, true, false, not, ◌&&◌, ◌||◌, Option, none, some, List, [], ◌∷◌, ◌++◌,
  map, append-nil, append_assoc, arith, Bytes, IsBytes, text, same_text, same_text_iff, any_byte,
  all_bytes, ltb, leb, ◌==◌, if◌then◌else◌, ltb→lt, ltb→ge, leb→le, ==_iff, Bool-cases,
  Option-cases, length, get_or, take, drop, replicate, length-append, take-append-drop, length-take,
  length-drop, length-replicate, take_all, drop_all, take-append_eq, drop-append_eq,
  take-append_right, drop-append_right, get_or-append_left, get_or-append_right, All, All-append,
  All-append_left, All-append_right, All-take, All-drop, All-get_or, All-get_or_lt,
}
use open_scum_rcon.Utf8.{utf8_prefix_size}

abbrev pub response_value : ℕ
response_value = 0

abbrev pub exec_command : ℕ
exec_command = 2

abbrev pub auth_response : ℕ
auth_response = 2

abbrev pub auth : ℕ
auth = 3

abbrev pub max_response_chunk : ℕ
max_response_chunk = 4086

pub record Packet : Type 0 where
  pub request_id : ℕ
  pub type : ℕ
  pub payload : Bytes

-- The four bytes of an int32_t, as memcpy reads them.
unfoldable pub int32_bytes : ℕ → Bytes
int32_bytes n = n % 256 ∷ n / 256 % 256 ∷ n / 65536 % 256 ∷ n / 16777216 % 256 ∷ []

-- The int32_t that memcpy makes of the first four bytes.
unfoldable pub bytes_int32 : Bytes → ℕ
bytes_int32 (a ∷ b ∷ c ∷ d ∷ rest) = a + 256 * b + 65536 * c + 16777216 * d
bytes_int32 _ = 0

-- memcpy of `source` into `out` at an offset; nothing is written beyond the end of `out`.
unfoldable pub copy_at : ℕ → Bytes → Bytes → Bytes
copy_at zero [] out = out
copy_at zero (x ∷ source) [] = []
copy_at zero (x ∷ source) (y ∷ out) = x ∷ copy_at zero source out
copy_at (suc offset) source [] = []
copy_at (suc offset) source (y ∷ out) = y ∷ copy_at offset source out

-- The three header words, written over the start of the buffer.
unfoldable pub write_header : ℕ → ℕ → ℕ → Bytes → Bytes
write_header size request_id type out =
    copy_at 8 (int32_bytes type)
      (copy_at 4 (int32_bytes request_id) (copy_at 0 (int32_bytes size) out))

-- `out[out.size() - 2] = out[out.size() - 1] = '\0'`
unfoldable pub terminate : Bytes → Bytes
terminate out =
    let out' = copy_at (length out - 2) (0 ∷ []) out in copy_at (length out' - 1) (0 ∷ []) out'

unfoldable pub encode_packet : ℕ → ℕ → Bytes → Bytes
encode_packet request_id type payload =
    let body_size = 8 + length payload + 2 in
    let size = body_size % 2 ^ 32 in
    let out = write_header size request_id type (replicate (4 + body_size) 0) in
    terminate (if 0 == length payload then out else copy_at 12 payload out)

-- One round of the loop for each chunk. The fuel is the size of the text: a chunk is never empty.
unfoldable pub encode_chunks : ℕ → ℕ → Bytes → List Bytes
encode_chunks zero request_id input = []
encode_chunks (suc fuel) request_id [] = []
encode_chunks (suc fuel) request_id (c ∷ input) =
    let prefix = utf8_prefix_size (c ∷ input) max_response_chunk in
    let chunk_len = if prefix == 0 then min max_response_chunk (length (c ∷ input)) else prefix in
    encode_packet request_id response_value (take chunk_len (c ∷ input))
    ∷ encode_chunks fuel request_id (drop chunk_len (c ∷ input))

unfoldable pub encode_response : ℕ → Bytes → List Bytes
unfolding encode_chunks
encode_response request_id [] = encode_packet request_id response_value [] ∷ []
encode_response request_id (c ∷ input) = encode_chunks (length (c ∷ input)) request_id (c ∷ input)

-- `std::find`: the distance to the first byte that is equal, or to the end.
unfoldable pub find : ℕ → Bytes → ℕ
find b [] = 0
find b (c ∷ cs) = if c == b then 0 else suc (find b cs)

-- `none` is `return false`, which leaves the packet of the caller as it was.
unfoldable pub decode_packet_body : Bytes → Option Packet
unfolding find bytes_int32
decode_packet_body body =
    let size = length body in
    let payload = take (size - 2 - 8) (drop 8 body) in
    if ltb size 10
      || not (get_or body (size - 1) 0 == 0)
      || not (get_or body (size - 2) 0 == 0)
      || not (find 0 payload == length payload)
    then none
    else some (record {
      request_id = bytes_int32 body;
      type = bytes_int32 (drop 4 body);
      payload = payload;
    })
