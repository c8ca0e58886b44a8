-- ===== src/Framing/Chunks.antt =====
-- NativeMessaging: the stream of messages, cut into chunks.
use mathlib.Core.List.{append-nil, append_assoc, flatten, map-append}
use quick_desk.Base.{
  ℕ, zero, suc, ◌+◌, ◌*◌, ◌/◌, ◌%◌, ◌^◌, ◌<◌, ◌≡◌, inl, inr, refl, sym, ap, ◌∙◌, ltb, lt→ltb, false,
  List, [], ◌∷◌, ◌++◌, map, none, some, arith, if◌then◌else◌, length, take, drop, length-append,
  take-append_self, drop-append_self, append_split, Bool-cases, leb, leb→le,
}
use quick_desk.Framing.Stream.{
  Json, Event, message_received, u32, length_bytes, length_field, take_frame, encode_message,
  parse_buffer, read_chunks, stream,
}

append_nil_left : (xs ys : List ℕ) → xs ++ ys ≡ [] → xs ≡ []
append_nil_left [] ys e = refl
append_nil_left (x ∷ xs) ys e = cc

length_field_lem :
    (n : ℕ) (rest : List ℕ) → n < u32 → length_field (length_bytes n ++ rest) ≡ some n
unfolding length_field length_bytes
length_field_lem n rest h = ap some (omega arith)

-- What `take_frame` does with a length field that does not wrap.
take_frame-field :
    (buffer : List ℕ) (n : ℕ)
    → length_field buffer ≡ some n
    → 4 + n < u32
    → length buffer < u32
    → take_frame buffer ≡ (
        if ltb (length buffer) (4 + n)
        then none
        else some (take n (drop 4 buffer), drop (4 + n) buffer))
unfolding take_frame
take_frame-field buffer n e h b =
    let field : (4 + n) % u32 ≡ 4 + n = omega arith in
    let size : length buffer % u32 ≡ length buffer = omega arith in
    rw (e, field, size, take_frame) refl

-- A complete frame at the front of the buffer is taken.
pub take_frame_complete :
    (p rest : List ℕ)
    → 4 + length p + length rest < u32
    → take_frame (length_bytes (length p) ++ (p ++ rest)) ≡ some (p, rest)
unfolding length_bytes
take_frame_complete p rest h =
    let n = length p in
    let size : length (p ++ rest) ≡ n + length rest = length-append p rest in
    let buffer = length_bytes n ++ (p ++ rest) in
    let whole : ltb (length buffer) (4 + n) ≡ false = ground arith in
    let four : 4 + n ≡ suc (suc (suc (suc n))) = omega arith in
    let taken = take-append_self p rest in
    let dropped = drop-append_self p rest in
    take_frame-field buffer n (length_field_lem n (p ++ rest) (omega arith)) (omega arith)
      (omega arith)
    ∙ rw (whole, four, taken, dropped) refl

-- A buffer that ends inside a frame waits.
take_frame-short :
    (buffer more p tail : List ℕ)
    → buffer ++ more ≡ length_bytes (length p) ++ (p ++ tail)
    → length buffer < 4 + length p
    → 4 + length p < u32
    → take_frame buffer ≡ none
unfolding length_field length_bytes
take_frame-short [] more p tail e h b = unfold take_frame in refl
take_frame-short (x0 ∷ []) more p tail e h b = unfold take_frame in refl
take_frame-short (x0 ∷ x1 ∷ []) more p tail e h b = unfold take_frame in refl
take_frame-short (x0 ∷ x1 ∷ x2 ∷ []) more p tail e h b = unfold take_frame in refl
take_frame-short (x0 ∷ x1 ∷ x2 ∷ x3 ∷ r) more p tail e h b =
    let n = length p in
    let e0 : x0 ≡ n % 256 = cc e in
    let e1 : x1 ≡ n / 2 ^ 8 % 256 = cc e in
    let e2 : x2 ≡ n / 2 ^ 16 % 256 = cc e in
    let e3 : x3 ≡ n / 2 ^ 24 % 256 = cc e in
    let field : x0 + x1 * 2 ^ 8 + x2 * 2 ^ 16 + x3 * 2 ^ 24 ≡ n = omega arith in
    take_frame-field (x0 ∷ x1 ∷ x2 ∷ x3 ∷ r) n (ap some field) b (omega arith)
    ∙ rw (lt→ltb _ _ h) refl

module _ (json : Json) where
  open json use {Object, to_json, from_json, from_json-to_json}

  abbrev received : List Object → List (Event Object)
  received = map message_received

  -- Where a prefix of the stream has been read: the messages read, those to come, and a buffer
  -- that waits inside the next frame.
  abbrev Reads : ℕ → List Object → List ℕ → List ℕ → Type 0
  Reads fuel ms buffer more =
      (done left : List Object) × (rest : List ℕ) × (ms ≡ done ++ left)
      × (parse_buffer json fuel buffer ≡ some (received done, rest))
      × (rest ++ more ≡ stream json left)
      × (take_frame rest ≡ none)

  encode_lem :
      (m : Object)
      → length (to_json m) < u32
      → encode_message json m ≡ length_bytes (length (to_json m)) ++ to_json m
  unfolding encode_message
  encode_lem m h =
      let size : length (to_json m) % u32 ≡ length (to_json m) = omega arith in rw size refl

  parse_stop :
      (fuel : ℕ) (buffer : List ℕ)
      → take_frame buffer ≡ none
      → parse_buffer json (suc fuel) buffer ≡ some ([], buffer)
  unfolding parse_buffer
  parse_stop fuel buffer h = rw (h, parse_buffer) refl

  parse_message :
      (fuel : ℕ) (m : Object) (rest left : List ℕ) (events : List (Event Object))
      → 4 + length (to_json m) + length rest < u32
      → parse_buffer json fuel rest ≡ some (events, left)
      → parse_buffer json (suc fuel) (encode_message json m ++ rest)
        ≡ some (message_received m ∷ events, left)
  unfolding parse_buffer
  parse_message fuel m rest left events h e =
      let p = to_json m in
      let whole : take_frame (encode_message json m ++ rest) ≡ some (p, rest) =
        rw (encode_lem m (omega arith), append_assoc (length_bytes (length p)) p rest)
          (take_frame_complete p rest h) in
      rw (whole, e, from_json-to_json m, parse_buffer) refl

  length-stream :
      (m : Object) (ms : List Object)
      → length (stream json (m ∷ ms)) ≡ 4 + length (to_json m) + length (stream json ms)
  unfolding stream encode_message length_bytes
  length-stream m ms = omega (arith, length-append (to_json m) (stream json ms))

  stream_cons :
      (m : Object) (ms : List Object)
      → length (to_json m) < u32
      → stream json (m ∷ ms) ≡ length_bytes (length (to_json m)) ++ (to_json m ++ stream json ms)
  unfolding stream
  stream_cons m ms h =
      rw (encode_lem m h)
        (append_assoc (length_bytes (length (to_json m))) (to_json m) (stream json ms))

  length-encode : (m : Object) → length (encode_message json m) ≡ 4 + length (to_json m)
  unfolding encode_message length_bytes
  length-encode m = omega arith

  read_prefix :
      (ms : List Object) (fuel : ℕ) (buffer more : List ℕ)
      → length ms < fuel
      → length (stream json ms) < u32
      → buffer ++ more ≡ stream json ms
      → Reads fuel ms buffer more
  unfolding stream
  read_prefix ms zero buffer more f b e = absurd (omega arith)
  read_prefix [] (suc fuel) buffer more f b e =
      let none_left : buffer ≡ [] = append_nil_left buffer more e in
      let waits : take_frame buffer ≡ none =
        rw none_left (unfold take_frame length_field in refl) in
      ([], [], buffer, refl, parse_stop fuel buffer waits, e, waits)
  read_prefix (m ∷ ms) (suc fuel) buffer more f b e =
      let size = length-stream m ms in
      let whole : length buffer + length more ≡ length (stream json (m ∷ ms)) =
        sym (length-append buffer more) ∙ ap length e in
      elim (Bool-cases (leb (4 + length (to_json m)) (length buffer))) [
        | inl fits ↦
            let (rest, a, r) =
              append_split buffer more (encode_message json m) (stream json ms) e
                (omega (arith, length-encode m, leb→le _ _ fits)) in
            let (done, left, out, split, parsed, ahead, waits) =
              read_prefix ms fuel rest more (omega arith) (omega arith) r in
            let parts : length buffer ≡ length (encode_message json m) + length rest =
              ap length a ∙ length-append (encode_message json m) rest in
            (
              m ∷ done,
              left,
              out,
              ap (◌∷◌ m) split,
              ap (parse_buffer json (suc fuel)) a
                  ∙ parse_message fuel m rest out (received done) (omega (arith, length-encode m))
                      parsed,
              ahead,
              waits,
            )
        | inr cut ↦
            let waits : take_frame buffer ≡ none =
              take_frame-short buffer more (to_json m) (stream json ms)
                (e ∙ stream_cons m ms (omega arith)) (ground arith) (omega arith) in
            ([], m ∷ ms, buffer, refl, parse_stop fuel buffer waits, e, waits)
      ]

  -- A buffer that holds the whole stream and waits holds none of it.
  stream_waits :
      (ms : List Object) (buffer : List ℕ)
      → length (stream json ms) < u32
      → take_frame buffer ≡ none
      → buffer ≡ stream json ms
      → ms ≡ []
  stream_waits [] buffer b w e = refl
  stream_waits (m ∷ ms) buffer b w e =
      let size = length-stream m ms in
      let full = take_frame_complete (to_json m) (stream json ms) (omega arith) in
      cc (full, stream_cons m ms (omega arith))

  length-stream_append :
      (done left : List Object)
      → length (stream json (done ++ left)) ≡ length (stream json done) + length (stream json left)
  unfolding stream
  length-stream_append [] left = omega arith
  length-stream_append (m ∷ done) left = omega (
    arith,
    length-append (encode_message json m) (stream json (done ++ left)),
    length-append (encode_message json m) (stream json done),
    length-stream_append done left,
  )

  read_from :
      (chunks : List (List ℕ)) (ms : List Object) (fuel : ℕ) (buffer : List ℕ)
      → length ms < fuel
      → length (stream json ms) < u32
      → take_frame buffer ≡ none
      → buffer ++ flatten chunks ≡ stream json ms
      → read_chunks json fuel buffer chunks ≡ some (received ms, [])
  unfolding read_chunks stream flatten
  read_from [] ms fuel buffer f b w e =
      let whole : buffer ≡ stream json ms = sym (append-nil buffer) ∙ e in
      let empty : ms ≡ [] = stream_waits ms buffer b w whole in cc (empty, whole)
  read_from (chunk ∷ chunks) ms fuel buffer f b w e =
      let (done, left, out, split, parsed, ahead, waits) =
        read_prefix ms fuel (buffer ++ chunk) (flatten chunks) f b
          (append_assoc buffer chunk (flatten chunks) ∙ e) in
      let count : length ms ≡ length done + length left =
        ap length split ∙ length-append done left in
      let bytes : length (stream json ms) ≡ length (stream json done) + length (stream json left) =
        ap (λ l. length (stream json l)) split ∙ length-stream_append done left in
      let rest = read_from chunks left fuel out (omega arith) (omega arith) waits ahead in
      rw (parsed, rest, split, read_chunks) (ap some (cc (map-append (message_received) done left)))

  -- Messages whose frames together take less than 2 ^ 32 bytes, written one after the other and
  -- delivered in any chunks, are received in order, each once, with no error and nothing left in
  -- the buffer. Rounds of `parseBuffer` for one more than the number of messages are enough.
  pub read_chunks-stream :
      (ms : List Object) (chunks : List (List ℕ))
      → flatten chunks ≡ stream json ms
      → length (stream json ms) < u32
      → read_chunks json (suc (length ms)) [] chunks ≡ some (map message_received ms, [])
  read_chunks-stream ms chunks e b =
      read_from chunks ms (suc (length ms)) [] (omega arith) b
        (unfold take_frame length_field in refl) e
