-- ===== src/Protocol/Chunks.antt =====
-- How `encode_response` cuts a text into packets.
use mathlib.Core.List.{flatten}
use open_scum_rcon.Base.{
  ℕ, zero, suc, ◌≤◌, ◌<◌, min, ◌≡◌, refl, ap, ◌∙◌, List, [], ◌∷◌, ◌++◌, map, arith, Bytes, ◌==◌,
  if◌then◌else◌, length, take, drop, take-append-drop, length-take, length-drop, All,
}
use open_scum_rcon.Utf8.{utf8_prefix_size}
use open_scum_rcon.Utf8.Boundary.{utf8_prefix_size_greatest}
use open_scum_rcon.Utf8.Valid.{IsUtf8, utf8_prefix_size-pos, utf8_prefix_size-IsUtf8}
use open_scum_rcon.Protocol.{
  encode_packet, encode_chunks, encode_response, response_value, max_response_chunk,
}

-- The packets are those of payloads that make up the text.
pub record IsChunked (request_id : ℕ) (input : Bytes) (packets : List Bytes) : Type 0 where
  pub payloads : List Bytes
  pub encoded : packets ≡ map (encode_packet request_id response_value) payloads
  pub whole : flatten payloads ≡ input
  pub small : All (λ p. length p ≤ max_response_chunk) payloads
  pub progress : All (λ p. 0 < length p) payloads
  pub valid : IsUtf8 input → All IsUtf8 payloads

abbrev chunk_len : Bytes → ℕ
chunk_len input =
    if utf8_prefix_size input max_response_chunk == 0
    then min max_response_chunk (length input)
    else utf8_prefix_size input max_response_chunk

chunk_len_bounds :
    (c : ℕ) (input : Bytes)
    → (0 < chunk_len (c ∷ input))
      × (chunk_len (c ∷ input) ≤ max_response_chunk)
      × (chunk_len (c ∷ input) ≤ length (c ∷ input))
chunk_len_bounds c input = ground (arith, g.0, g.1)
  where
    g :
        (utf8_prefix_size (c ∷ input) max_response_chunk ≤ length (c ∷ input))
        × (utf8_prefix_size (c ∷ input) max_response_chunk ≤ max_response_chunk)
    g = let all = utf8_prefix_size_greatest (c ∷ input) max_response_chunk in (all.0, all.1)

-- In a text with the structure of UTF-8 the fallback that cuts anywhere is never taken.
chunk_len-IsUtf8 :
    (c : ℕ) (input : Bytes)
    → IsUtf8 (c ∷ input)
    → IsUtf8 (take (chunk_len (c ∷ input)) (c ∷ input))
      × IsUtf8 (drop (chunk_len (c ∷ input)) (c ∷ input))
chunk_len-IsUtf8 c input v = rw regular (utf8_prefix_size-IsUtf8 max_response_chunk v)
  where
    pos : 0 < utf8_prefix_size (c ∷ input) max_response_chunk
    pos = utf8_prefix_size-pos max_response_chunk v (omega arith) (omega arith)

    regular : chunk_len (c ∷ input) ≡ utf8_prefix_size (c ∷ input) max_response_chunk
    regular = ground (arith, pos)

nil-IsChunked : (request_id : ℕ) → IsChunked request_id [] []
unfolding flatten
nil-IsChunked request_id = record {
  payloads = [];
  encoded = refl;
  whole = refl;
  small = tt;
  progress = tt;
  valid = λ _. tt;
}

cons-IsChunked :
    (request_id c : ℕ) (input : Bytes) (packets : List Bytes)
    → IsChunked request_id (drop (chunk_len (c ∷ input)) (c ∷ input)) packets
    → IsChunked request_id (c ∷ input) (
        encode_packet request_id response_value (take (chunk_len (c ∷ input)) (c ∷ input))
        ∷ packets)
unfolding flatten
cons-IsChunked request_id c input packets rest = record {
  payloads = chunk ∷ rest.payloads;
  encoded = ap (λ ps. encode_packet request_id response_value chunk ∷ ps) rest.encoded;
  whole = ap (λ zs. chunk ++ zs) rest.whole ∙ take-append-drop n (c ∷ input);
  small = (omega (arith, size, bounds.1), rest.small);
  progress = (omega (arith, size, bounds.0), rest.progress);
  valid = λ v. let parts = chunk_len-IsUtf8 c input v in (parts.0, rest.valid parts.1);
}
  where
    n : ℕ
    n = chunk_len (c ∷ input)

    bounds : (0 < n) × (n ≤ max_response_chunk) × (n ≤ length (c ∷ input))
    bounds = chunk_len_bounds c input

    chunk : Bytes
    chunk = take n (c ∷ input)

    size : length chunk ≡ n
    size = omega (arith, length-take n (c ∷ input), bounds.2)

encode_chunks-IsChunked :
    (fuel request_id : ℕ) (input : Bytes)
    → length input ≤ fuel
    → IsChunked request_id input (encode_chunks fuel request_id input)
unfolding encode_chunks
encode_chunks-IsChunked zero request_id [] h = nil-IsChunked request_id
encode_chunks-IsChunked zero request_id (c ∷ input) h = absurd (omega arith)
encode_chunks-IsChunked (suc fuel) request_id [] h = nil-IsChunked request_id
encode_chunks-IsChunked (suc fuel) request_id (c ∷ input) h = cons-IsChunked request_id c input _ (
    encode_chunks-IsChunked fuel request_id (drop (chunk_len (c ∷ input)) (c ∷ input)) (
      omega (arith, length-drop (chunk_len (c ∷ input)) (c ∷ input), (chunk_len_bounds c input).0)))

-- For a text that is not empty, `encode_response` gives SERVERDATA_RESPONSE_VALUE packets whose
-- payloads, joined, are the text; no payload is empty or longer than MAX_RESPONSE_CHUNK, and
-- each is made of whole code points where the text is.
pub encode_response-IsChunked :
    (request_id : ℕ) (input : Bytes)
    → 0 < length input
    → IsChunked request_id input (encode_response request_id input)
unfolding encode_response
encode_response-IsChunked request_id [] h = absurd (omega arith)
encode_response-IsChunked request_id (c ∷ input) h =
    encode_chunks-IsChunked (length (c ∷ input)) request_id (c ∷ input) (omega arith)
