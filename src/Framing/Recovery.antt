-- ===== src/Framing/Recovery.antt =====
-- Frames whose payload is no JSON object.
use quick_desk.Base.{
  ℕ, suc, ◌+◌, ◌<◌, ◌≡◌, refl, List, [], ◌∷◌, ◌++◌, map, some, none, arith, length, length-append,
}
use quick_desk.Framing.Stream.{
  Json, u32, length_bytes, length_field, take_frame, report, parse_buffer,
}
use quick_desk.Framing.Chunks.{take_frame_complete}

-- The frames of payloads, one after the other.
unfoldable pub frames : List (List ℕ) → List ℕ
frames [] = []
frames (p ∷ ps) = length_bytes (length p) ++ (p ++ frames ps)

length-frames :
    (p : List ℕ) (ps : List (List ℕ)) → length (frames (p ∷ ps)) ≡ 4 + length p + length (frames ps)
unfolding frames length_bytes
length-frames p ps = omega (arith, length-append p (frames ps))

module _ (json : Json) where
  open json use {Object, from_json}

  -- Frames of any payloads, together of less than 2 ^ 32 bytes: `parseBuffer` takes each of them,
  -- and reports for each, in order, the message or the error of its own payload; one that is no JSON
  -- object loses none of those behind it.
  pub parse_buffer-frames :
      (ps : List (List ℕ))
      → length (frames ps) < u32
      → parse_buffer json (suc (length ps)) (frames ps)
        ≡ some (map (λ p. report json (from_json p)) ps, [])
  unfolding parse_buffer frames
  parse_buffer-frames [] b =
      let waits : take_frame [] ≡ none = unfold take_frame length_field in refl in
      rw (waits, parse_buffer) refl
  parse_buffer-frames (p ∷ ps) b =
      let size = length-frames p ps in
      rw
        (
          take_frame_complete p (frames ps) (omega arith),
          parse_buffer-frames ps (omega arith),
          parse_buffer,
        )
        refl
