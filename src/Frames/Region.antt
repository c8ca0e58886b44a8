-- ===== src/Frames/Region.antt =====
-- The header of a shared frame, the checks of its fields, and where a frame is read from. The
-- arithmetic is that of quint32.
use quick_desk.Base.{
  ℕ, suc, ◌+◌, ◌-◌, ◌*◌, ◌/◌, ◌%◌, ℤ, pos, negsuc, Bool, ◌&&◌, Option, none, some, if◌then◌else◌,
  ltb, leb, nat_eqb,
}

-- SharedFrameHeader without its reserved words.
pub record SharedFrameHeader : Type 0 where
  pub magic : ℕ
  pub version : ℕ
  pub width : ℕ
  pub height : ℕ
  pub format : ℕ
  pub frame_index : ℕ
  pub timestamp_us : ℕ
  pub data_size : ℕ
  pub y_stride : ℕ
  pub u_stride : ℕ
  pub v_stride : ℕ

-- kSharedFrameMagic, 0x51444656
abbrev pub shared_frame_magic : ℕ
shared_frame_magic = 1363429974

abbrev pub shared_frame_version : ℕ
shared_frame_version = 1

-- 2 ^ 32
abbrev pub word : ℕ
word = 4294967296

-- 2 ^ 31
abbrev pub half_word : ℕ
half_word = 2147483648

abbrev pub mul32 : ℕ → ℕ → ℕ
mul32 a b = (a * b) % word

abbrev pub add32 : ℕ → ℕ → ℕ
add32 a b = (a + b) % word

-- The conversion of a quint32 to an `int`.
abbrev pub to_int : ℕ → ℤ
to_int n = if ltb n half_word then pos n else negsuc (word - suc n)

-- One QByteArray of a frame: where it is copied from, as a distance from the end of the header, its
-- size, and its bytes per line.
pub record Plane : Type 0 where
  pub offset : ℕ
  pub size : ℤ
  pub bytes_per_line : ℤ

pub record VideoFrame : Type 0 where
  pub width : ℕ
  pub height : ℕ
  pub y_plane : Plane
  pub u_plane : Plane
  pub v_plane : Plane

abbrev pub is_known : SharedFrameHeader → Bool
is_known h = nat_eqb h.magic shared_frame_magic && nat_eqb h.version shared_frame_version

abbrev pub is_sized : SharedFrameHeader → Bool
is_sized h = ltb 0 h.width && (ltb 0 h.height && (leb h.width 8192 && leb h.height 8192))

-- `expectedSize` of readVideoFrame.
unfoldable pub padded_size : SharedFrameHeader → ℕ
padded_size h =
    add32 (add32 (mul32 h.y_stride h.height) (mul32 h.u_stride (h.height / 2)))
      (mul32 h.v_stride (h.height / 2))

-- `expectedSize` of lockFrame.
unfoldable pub plain_size : SharedFrameHeader → ℕ
plain_size h = add32 (mul32 h.width h.height) (mul32 (mul32 (h.width / 2) (h.height / 2)) 2)

-- The three planes, one after the other.
abbrev pub planes_of : SharedFrameHeader → VideoFrame
planes_of h =
    let y_size = mul32 h.y_stride h.height in
    let u_size = mul32 h.u_stride (h.height / 2) in
    let v_size = mul32 h.v_stride (h.height / 2) in
    record {
      width = h.width;
      height = h.height;
      y_plane = record { offset = 0; size = to_int y_size; bytes_per_line = to_int h.y_stride };
      u_plane = record {
        offset = y_size;
        size = to_int u_size;
        bytes_per_line = to_int h.u_stride;
      };
      v_plane = record {
        offset = y_size + u_size;
        size = to_int v_size;
        bytes_per_line = to_int h.v_stride;
      };
    }

-- The frame that readVideoFrame makes of a region whose header it knows.
unfoldable pub frame_of : SharedFrameHeader → Option VideoFrame
frame_of h = if is_sized h && nat_eqb h.data_size (padded_size h) then some (planes_of h) else none
