-- ===== src/Tests/Wire.antt =====
-- Text cuts, packets and collected replies at concrete inputs.
use open_scum_rcon.Base.{
  ℕ, ◌≤◌, ◌≡◌, refl, ap, ◌∙◌, Bool, true, false, some, List, [], ◌∷◌, arith, Bytes, length, drop,
}
use open_scum_rcon.Utf8.{is_continuation, utf8_prefix_size}
use open_scum_rcon.Utf8.Valid.{IsUtf8, nil, point}
use open_scum_rcon.Protocol.{Packet, encode_packet, encode_response, decode_packet_body}
use open_scum_rcon.Protocol.Frame.{frame, encode_packet-frame}
use open_scum_rcon.Protocol.Decode.{
  IsSendable, decode_packet_body-encode_packet, encode_packet-decode_packet_body,
}
use open_scum_rcon.Protocol.Chunks.{IsChunked, encode_response-IsChunked}
use open_scum_rcon.Response.{fresh, enter, leave, collect, max_messages}
use open_scum_rcon.Response.Collect.{join_all, joined, collect-IsUtf8}
use open_scum_rcon.Response.Replies.{collect_all, collect_all_lossless, collect_all_whole}
use open_scum_rcon.Response.Nesting.{Message, accept_all, own, foreign, leave-accept_all}

-- "a", then the two bytes of U+00E4, then "b".
abbrev accented : Bytes
accented = 0x61 ∷ 0xc3 ∷ 0xa4 ∷ 0x62 ∷ []

accented-IsUtf8 : IsUtf8 accented
unfolding is_continuation
accented-IsUtf8 =
    point 0x61 [] refl tt
      (point 0xc3 (0xa4 ∷ []) refl (refl, tt) (point 0x62 [] {rest = []} refl tt nil refl) refl)
      refl

cut_before_accent : utf8_prefix_size accented 2 ≡ 1
unfolding utf8_prefix_size
cut_before_accent = refl

abbrev request : Packet
request = record { request_id = 7; type = 2; payload = 0x48 ∷ 0x69 ∷ [] }

abbrev request_body : Bytes
request_body = 7 ∷ 0 ∷ 0 ∷ 0 ∷ 2 ∷ 0 ∷ 0 ∷ 0 ∷ 0x48 ∷ 0x69 ∷ 0 ∷ 0 ∷ []

encoded_request : encode_packet 7 2 (0x48 ∷ 0x69 ∷ []) ≡ 12 ∷ 0 ∷ 0 ∷ 0 ∷ request_body
encoded_request =
    encode_packet-frame 7 2 (0x48 ∷ 0x69 ∷ []) ∙ unfold open_scum_rcon.Protocol.int32_bytes in refl

encode_packet-frame_example : encode_packet 7 2 (0x48 ∷ 0x69 ∷ []) ≡ frame 7 2 (0x48 ∷ 0x69 ∷ [])
encode_packet-frame_example = encode_packet-frame 7 2 (0x48 ∷ 0x69 ∷ [])

request-IsSendable : IsSendable request
request-IsSendable = omega arith

decode_packet_body-encode_packet_example :
    decode_packet_body (drop 4 (encode_packet 7 2 (0x48 ∷ 0x69 ∷ []))) ≡ some request
decode_packet_body-encode_packet_example =
    decode_packet_body-encode_packet request request-IsSendable

decoded_request : decode_packet_body request_body ≡ some request
unfolding decode_packet_body
decoded_request = refl

encode_packet-decode_packet_body_example :
    IsSendable request × (drop 4 (encode_packet 7 2 (0x48 ∷ 0x69 ∷ [])) ≡ request_body)
encode_packet-decode_packet_body_example =
    encode_packet-decode_packet_body request_body request (omega arith) decoded_request

encode_response-IsChunked_example : IsChunked 7 accented (encode_response 7 accented)
encode_response-IsChunked_example = encode_response-IsChunked 7 accented (omega arith)

-- Memory never fails.
abbrev plenty : ℕ → Bool
plenty n = true

abbrev two_lines : List Bytes
two_lines = accented ∷ accented ∷ []

collect-IsUtf8_example : IsUtf8 (collect plenty accented (fresh 5)).output
collect-IsUtf8_example = collect-IsUtf8 plenty accented (fresh 5) accented-IsUtf8 nil

two_lines_length : length (join_all [] two_lines) ≡ 9
unfolding joined
two_lines_length = refl

collect_all_whole_example :
    collect_all plenty two_lines (fresh 5)
    ≡ record { command = 5; output = join_all [] two_lines; count = 2; cut = false; failed = false }
collect_all_whole_example =
    collect_all_whole plenty 5 two_lines (λ n. refl) (omega arith) (omega (arith, two_lines_length))

two_lines_whole : (collect_all plenty two_lines (fresh 5)).cut ≡ false
two_lines_whole = ap (λ r. r.cut) collect_all_whole_example

two_lines_sound : (collect_all plenty two_lines (fresh 5)).failed ≡ false
two_lines_sound = ap (λ r. r.failed) collect_all_whole_example

collect_all_lossless_example :
    ((collect_all plenty two_lines (fresh 5)).output ≡ join_all [] two_lines)
    × (length two_lines ≤ max_messages)
collect_all_lossless_example =
    collect_all_lossless plenty 5 two_lines two_lines_whole two_lines_sound

abbrev mixed : List Message
mixed = record { command = 5; content = accented } ∷ record { command = 6; content = accented } ∷ []

leave-accept_all_example :
    (accept_all plenty mixed (enter 5 (fresh 6 ∷ []))
      ≡ (foreign 5 mixed, collect_all plenty (own 5 mixed) (fresh 5) ∷ fresh 6 ∷ []))
    × (leave (accept_all plenty mixed (enter 5 (fresh 6 ∷ []))).1 ≡ fresh 6 ∷ [])
leave-accept_all_example = leave-accept_all plenty 5 mixed (fresh 6 ∷ []) (omega arith)
