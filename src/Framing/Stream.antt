-- ===== src/Framing/Stream.antt =====
-- The byte stream: `encodeMessage`, `parseBuffer` and `onReadyRead`.
use quick_desk.Base.{
  ℕ, zero, suc, ◌+◌, ◌*◌, ◌/◌, ◌%◌, ◌^◌, ◌≡◌, ltb, List, [], ◌∷◌, ◌++◌, Option, none, some, String,
  if◌then◌else◌, length, take, drop,
}

-- What QJsonDocument::fromJson gives: an error with its text, a document that is no object, or
-- an object.
pub data Parsed (Object : Type 0) : Type 0 where
  invalid : String → Parsed Object
  not_object : Parsed Object
  object : Object → Parsed Object

-- QJsonDocument, with the documented law that a written object reads back.
pub record Json : Type 1 where
  pub Object : Type 0
  pub to_json : Object → List ℕ
  pub from_json : List ℕ → Parsed Object
  pub from_json-to_json : (o : Object) → from_json (to_json o) ≡ object o

-- The signals of NativeMessaging.
pub data Event (Object : Type 0) : Type 0 where
  message_received : Object → Event Object
  parse_failed : String → Event Object
  non_object : Event Object

abbrev pub u32 : ℕ
u32 = 2 ^ 32

unfoldable pub length_bytes : ℕ → List ℕ
length_bytes n = n % 256 ∷ n / 2 ^ 8 % 256 ∷ n / 2 ^ 16 % 256 ∷ n / 2 ^ 24 % 256 ∷ []

-- The length field of a buffer of four bytes or more. The shifted bytes do not overlap, so their
-- bitwise or is their sum.
unfoldable pub length_field : List ℕ → Option ℕ
length_field (a ∷ b ∷ c ∷ d ∷ rest) = some (a + b * 2 ^ 8 + c * 2 ^ 16 + d * 2 ^ 24)
length_field _ = none

-- One round of `parseBuffer`: the payload and the buffer after it, or `none` to wait for more.
-- `4 + length` and the size are taken as `quint32`.
unfoldable pub take_frame : List ℕ → Option (List ℕ × List ℕ)
take_frame buffer = elim (length_field buffer) [
  | none ↦ none
  | some n ↦
      if ltb (length buffer % u32) ((4 + n) % u32)
      then none
      else some (take n (drop 4 buffer), drop ((4 + n) % u32) buffer)
]

module _ (json : Json) where
  open json use {Object, to_json, from_json}

  unfoldable pub encode_message : Object → List ℕ
  encode_message m = length_bytes (length (to_json m) % u32) ++ to_json m

  abbrev pub report : Parsed Object → Event Object
  report (invalid text) = parse_failed text
  report not_object = non_object
  report (object m) = message_received m

  -- The loop of `parseBuffer`: the signals and the buffer that is left. `none` means that the
  -- fuel ran out.
  unfoldable pub parse_buffer : ℕ → List ℕ → Option (List (Event Object) × List ℕ)
  parse_buffer zero buffer = none
  parse_buffer (suc fuel) buffer = elim (take_frame buffer) [
    | none ↦ some ([], buffer)
    | some (payload, rest) ↦ elim (parse_buffer fuel rest) [
      | none ↦ none
      | some (events, left) ↦ some (report (from_json payload) ∷ events, left)
    ]
  ]

  -- `onReadyRead` for each chunk in turn.
  unfoldable pub read_chunks : ℕ → List ℕ → List (List ℕ) → Option (List (Event Object) × List ℕ)
  read_chunks fuel buffer [] = some ([], buffer)
  read_chunks fuel buffer (chunk ∷ chunks) = elim (parse_buffer fuel (buffer ++ chunk)) [
    | none ↦ none
    | some (events, left) ↦ elim (read_chunks fuel left chunks) [
      | none ↦ none
      | some (more, left') ↦ some (events ++ more, left')
    ]
  ]

  -- The bytes of a sequence of messages.
  unfoldable pub stream : List Object → List ℕ
  stream [] = []
  stream (m ∷ ms) = encode_message m ++ stream ms
