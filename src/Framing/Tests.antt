-- ===== src/Framing/Tests.antt =====
-- The framing on concrete bytes. The sample reader and writer stand for JSON texts of one byte.
use mathlib.Core.List.{flatten}
use quick_desk.Base.{ℕ, ◌≡◌, refl, List, [], ◌∷◌, none, some, length, arith, true}
use quick_desk.Framing.Stream.{
  Json, Parsed, object, not_object, message_received, non_object, length_bytes, length_field,
  take_frame, encode_message, parse_buffer, read_chunks, stream,
}
use quick_desk.Framing.Chunks.{read_chunks-stream}
use quick_desk.Framing.Recovery.{frames, parse_buffer-frames}
use quick_desk.Framing.Wrap.{parse_buffer-wraps}
use quick_desk.Framing.Transport.{process, is_ready, send_message, send_message-ready}

abbrev from_byte : List ℕ → Parsed ℕ
from_byte (n ∷ []) = object n
from_byte _ = not_object

abbrev bytes : Json
bytes = record {
  Object = ℕ;
  to_json = λ n. n ∷ [];
  from_json = from_byte;
  from_json-to_json = λ n. refl;
}

encode_seven : encode_message bytes 7 ≡ 1 ∷ 0 ∷ 0 ∷ 0 ∷ 7 ∷ []
unfolding encode_message length_bytes
encode_seven = refl

-- A frame and a half: one message, and the rest waits.
parse_one :
    parse_buffer bytes 3 (1 ∷ 0 ∷ 0 ∷ 0 ∷ 7 ∷ 1 ∷ 0 ∷ [])
    ≡ some (message_received 7 ∷ [], 1 ∷ 0 ∷ [])
unfolding parse_buffer take_frame length_field
parse_one = refl

read_chunks-stream_example :
    read_chunks bytes 3 [] ((1 ∷ 0 ∷ 0 ∷ []) ∷ (0 ∷ 7 ∷ 1 ∷ 0 ∷ 0 ∷ []) ∷ (0 ∷ 9 ∷ []) ∷ [])
    ≡ some (message_received 7 ∷ message_received 9 ∷ [], [])
unfolding flatten stream encode_message length_bytes
read_chunks-stream_example =
    read_chunks-stream bytes (7 ∷ 9 ∷ [])
      ((1 ∷ 0 ∷ 0 ∷ []) ∷ (0 ∷ 7 ∷ 1 ∷ 0 ∷ 0 ∷ []) ∷ (0 ∷ 9 ∷ []) ∷ []) refl (omega arith)

parse_buffer-wraps_example : parse_buffer bytes 1000 (252 ∷ 255 ∷ 255 ∷ 255 ∷ 123 ∷ 125 ∷ []) ≡ none
parse_buffer-wraps_example = parse_buffer-wraps bytes 1000 (123 ∷ 125 ∷ [])

send_seven :
    send_message bytes (λ b. some (length b)) (process true) 7
    ≡ record { written_bytes = encode_message bytes 7; errors = [] }
unfolding is_ready
send_seven = send_message-ready bytes (λ b. some (length b)) (process true) 7 refl refl

-- A payload that the sample reader refuses, before one that it reads.
parse_buffer-frames_example :
    parse_buffer bytes 3 (frames ((1 ∷ 2 ∷ []) ∷ (9 ∷ []) ∷ []))
    ≡ some (non_object ∷ message_received 9 ∷ [], [])
unfolding frames length_bytes
parse_buffer-frames_example = parse_buffer-frames bytes ((1 ∷ 2 ∷ []) ∷ (9 ∷ []) ∷ []) (omega arith)
