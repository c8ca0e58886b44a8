-- ===== src/Frames/Planes.antt =====
-- Where the planes of a frame lie in its region.
use native.Mathlib.Nat.{mul-le-mul}
use quick_desk.Base.{
  ℕ, ◌+◌, ◌*◌, ◌/◌, ◌%◌, ◌≤◌, ◌<◌, ◌≡◌, refl, ap, ap₂, ◌∙◌, sym, subst, pos, some, arith,
}
use quick_desk.Frames.Region.{
  SharedFrameHeader, mul32, to_int, VideoFrame, padded_size, planes_of, frame_of,
}

mul_le : (a b m n : ℕ) → a ≤ m → b ≤ n → a * b ≤ m * n
mul_le a b m n h g = mul-le-mul h g

mod_small : (n : ℕ) → n < 4294967296 → n % 4294967296 ≡ n
mod_small n h = omega arith

half_le : (n : ℕ) → n ≤ 8192 → n / 2 ≤ 4096
half_le n h = omega arith

to_int_small : (n : ℕ) → n < 2147483648 → to_int n ≡ pos n
to_int_small n h = ground arith

mul32_small : (a b : ℕ) → a ≤ 65536 → b ≤ 8192 → mul32 a b ≡ a * b
mul32_small a b h g = mod_small (a * b) (omega (arith, mul_le a b 65536 8192 h g))

-- The three planes lie one after the other, from the header's end on, and fill the data.
pub record Tiles (h : SharedFrameHeader) (f : VideoFrame) : Type 0 where
  pub y_start : f.y_plane.offset ≡ 0
  pub y_size : f.y_plane.size ≡ pos (h.y_stride * h.height)
  pub u_start : f.u_plane.offset ≡ h.y_stride * h.height
  pub u_size : f.u_plane.size ≡ pos (h.u_stride * (h.height / 2))
  pub v_start : f.v_plane.offset ≡ h.y_stride * h.height + h.u_stride * (h.height / 2)
  pub v_size : f.v_plane.size ≡ pos (h.v_stride * (h.height / 2))
  pub filled :
      h.y_stride * h.height + h.u_stride * (h.height / 2) + h.v_stride * (h.height / 2)
      ≡ h.data_size

padded_size_small :
    (h : SharedFrameHeader)
    → h.y_stride ≤ 65536
    → h.u_stride ≤ 65536
    → h.v_stride ≤ 65536
    → h.height ≤ 8192
    → padded_size h
      ≡ h.y_stride * h.height + h.u_stride * (h.height / 2) + h.v_stride * (h.height / 2)
unfolding padded_size
padded_size_small h y u v w =
    let half = half_le h.height w in
    let ys = mul_le h.y_stride h.height 65536 8192 y w in
    let us = mul_le h.u_stride (h.height / 2) 65536 4096 u half in
    let vs = mul_le h.v_stride (h.height / 2) 65536 4096 v half in
    rw
      (
        mul32_small h.y_stride h.height y w,
        mul32_small h.u_stride (h.height / 2) u (omega arith),
        mul32_small h.v_stride (h.height / 2) v (omega arith),
      )
      (omega (arith, ys, us, vs))

planes_of-Tiles :
    (h : SharedFrameHeader)
    → h.y_stride ≤ 65536
    → h.u_stride ≤ 65536
    → h.v_stride ≤ 65536
    → h.height ≤ 8192
    → h.data_size ≡ padded_size h
    → Tiles h (planes_of h)
planes_of-Tiles h y u v w size =
    let half = half_le h.height w in
    let ys = mul_le h.y_stride h.height 65536 8192 y w in
    let us = mul_le h.u_stride (h.height / 2) 65536 4096 u half in
    let vs = mul_le h.v_stride (h.height / 2) 65536 4096 v half in
    let y_exact = mul32_small h.y_stride h.height y w in
    let u_exact = mul32_small h.u_stride (h.height / 2) u (omega (arith, half)) in
    let v_exact = mul32_small h.v_stride (h.height / 2) v (omega (arith, half)) in
    record {
      y_start = refl;
      y_size = ap to_int y_exact ∙ to_int_small (h.y_stride * h.height) (omega (arith, ys));
      u_start = y_exact;
      u_size = ap to_int u_exact ∙ to_int_small (h.u_stride * (h.height / 2)) (omega (arith, us));
      v_start = ap₂ ◌+◌ y_exact u_exact;
      v_size = ap to_int v_exact ∙ to_int_small (h.v_stride * (h.height / 2)) (omega (arith, vs));
      filled = sym (padded_size_small h y u v w) ∙ sym size;
    }

-- A frame of a region whose strides are at most 65536 is read from three planes that follow each
-- other directly behind the header, each as long as its stride times its lines, and that end where
-- the data of the header's size end.
pub frame_of-Tiles :
    (h : SharedFrameHeader) (f : VideoFrame)
    → h.y_stride ≤ 65536
    → h.u_stride ≤ 65536
    → h.v_stride ≤ 65536
    → frame_of h ≡ some f
    → Tiles h f
unfolding frame_of
frame_of-Tiles h f y u v e =
    let w : h.height ≤ 8192 = ground (arith, e) in
    let size : h.data_size ≡ padded_size h = ground (arith, e) in
    let made : planes_of h ≡ f = ground (arith, e) in
    subst (Tiles h) made (planes_of-Tiles h y u v w size)
