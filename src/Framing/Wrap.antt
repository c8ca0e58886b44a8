-- ===== src/Framing/Wrap.antt =====
-- `parseBuffer` on the length field 2 ^ 32 - 4, where `4 + length` wraps as a `quint32`.
use quick_desk.Base.{
  ℕ, zero, suc, ◌%◌, ◌≡◌, refl, List, ◌∷◌, none, some, arith, length, take, false, ltb,
}
use quick_desk.Framing.Stream.{Json, u32, length_field, take_frame, parse_buffer}

ltb_zero : (n : ℕ) → ltb n 0 ≡ false
ltb_zero n = ground arith

-- The frame at the front of such a buffer is taken and no byte of the buffer is removed.
take_frame-wraps :
    (rest : List ℕ)
    → (p : List ℕ) × (take_frame (252 ∷ 255 ∷ 255 ∷ 255 ∷ rest)
        ≡ some (p, 252 ∷ 255 ∷ 255 ∷ 255 ∷ rest))
unfolding take_frame length_field
take_frame-wraps rest =
    let never = ltb_zero (suc (suc (suc (suc (length rest)))) % u32) in
    (take 4294967292 rest, rw never refl)

-- The loop of `parseBuffer` never ends on a buffer that begins with the length field 2 ^ 32 - 4:
-- no number of rounds is enough, whatever follows the field.
pub parse_buffer-wraps :
    (json : Json) (fuel : ℕ) (rest : List ℕ)
    → parse_buffer json fuel (252 ∷ 255 ∷ 255 ∷ 255 ∷ rest) ≡ none
unfolding parse_buffer
parse_buffer-wraps json zero rest = refl
parse_buffer-wraps json (suc fuel) rest =
    let (p, e) = take_frame-wraps rest in
    rw (e, parse_buffer-wraps json fuel rest, parse_buffer) refl
