-- ===== src/Frames/Manager.antt =====
-- SharedMemoryManager: the handle of each device, and its operations.
use quick_desk.Base.{
  ℕ, Bool, true, false, not, ◌&&◌, ◌||◌, String, List, [], ◌∷◌, ◌++◌, Option, none, some,
  if◌then◌else◌, ltb, nat_eqb, str_eq, string_eq,
}
use quick_desk.Base.Dict.{lookup, insert, erase}
use quick_desk.Frames.Region.{
  SharedFrameHeader, shared_frame_magic, VideoFrame, is_known, is_sized, plain_size, frame_of,
}

-- The calls that a manager makes of QSharedMemory's lock, in order.
pub data LockCall : Type 0 where
  locked unlocked : LockCall

pub record Handle : Type 0 where
  pub device_id : String
  pub shared_memory_name : String
  pub last_frame_index : ℕ
  -- QSharedMemory::isAttached
  pub is_attached : Bool
  pub is_locked : Bool
  -- The calls of lock that succeeded, and those of unlock.
  pub calls : List LockCall

pub data Signal : Type 0 where
  attachment_changed : String → Bool → Signal
  frame_read_error : String → Signal

-- The order of the handles in m_handles, that of their keys, is not kept.
pub record SharedMemoryManager : Type 0 where
  pub handles : List (String × Handle)
  pub signals : List Signal

-- What QSharedMemory shows to one operation: whether `lock` succeeds, and the header at
-- `constData`, none for a null pointer.
pub record Memory : Type 0 where
  pub locks : Bool
  pub header : Option SharedFrameHeader

abbrev pub call : LockCall → Handle → Handle
call c h = record h { calls = h.calls ++ c ∷ [] }

-- A handle that is closed is also taken out of the map.
unfoldable pub detach : String → SharedMemoryManager → SharedMemoryManager
detach id m = elim (lookup id m.handles) [
  | none ↦ m
  | some h ↦ record {
    handles = erase id m.handles;
    signals = m.signals ++ attachment_changed id false ∷ [];
  }
]

-- The second half of `attach`; `attaches` is the answer of QSharedMemory::attach.
unfoldable pub attach_new :
    Bool → String → String → SharedMemoryManager → SharedMemoryManager × Bool
attach_new attaches id name m =
    let h : Handle = record {
      device_id = id;
      shared_memory_name = name;
      last_frame_index = 0;
      is_attached = true;
      is_locked = false;
      calls = [];
    } in
    if attaches
    then (
      record {
        handles = insert id h m.handles;
        signals = m.signals ++ attachment_changed id true ∷ [];
      },
      true,
    )
    else (record m { signals = m.signals ++ frame_read_error id ∷ [] }, false)

unfoldable pub attach : Bool → String → String → SharedMemoryManager → SharedMemoryManager × Bool
attach attaches id name m = elim (lookup id m.handles) [
  | none ↦ attach_new attaches id name m
  | some h ↦
      if str_eq h.shared_memory_name name && h.is_attached
      then (m, true)
      else attach_new attaches id name (detach id m)
]

unfoldable pub detach_signals : List (String × Handle) → List Signal
detach_signals [] = []
detach_signals ((id, h) ∷ hs) = attachment_changed h.device_id false ∷ detach_signals hs

unfoldable pub detach_all : SharedMemoryManager → SharedMemoryManager
detach_all m = record { handles = []; signals = m.signals ++ detach_signals m.handles }

unfoldable pub is_attached : String → SharedMemoryManager → Bool
is_attached id m = elim (lookup id m.handles) [ none ↦ false | some h ↦ h.is_attached ]

-- The part of `readVideoFrame` under the lock.
unfoldable pub read_locked : Option SharedFrameHeader → Handle → Handle × Option VideoFrame
read_locked none h = (h, none)
read_locked (some header) h =
    if is_known header
    then (record h { last_frame_index = header.frame_index }, frame_of header)
    else (h, none)

unfoldable pub read_handle : Memory → Handle → Handle × Option VideoFrame
read_handle memory h =
    let (seen, frame) = read_locked memory.header (call locked h) in
    if not h.is_attached
    then (h, none)
    else if not memory.locks
    then (h, none)
    else (call unlocked seen, frame)

-- FrameData; an invalid one is none. `data` lies behind the header.
pub record FrameData : Type 0 where
  pub width : ℕ
  pub height : ℕ
  pub frame_index : ℕ
  pub timestamp_us : ℕ
  pub format : ℕ
  pub data_size : ℕ

-- The part of `lockFrame` under the lock, from `isLocked = true` on.
unfoldable pub check_locked : Option SharedFrameHeader → Handle → Handle × Option FrameData
check_locked none h = (call unlocked (record h { is_locked = false }), none)
check_locked (some header) h =
    let released = call unlocked (record h { is_locked = false }) in
    if not (is_known header)
    then (released, none)
    else if not (is_sized header) || not (nat_eqb header.data_size (plain_size header))
    then (released, none)
    else (
      record h { last_frame_index = header.frame_index },
      some (record {
        width = header.width;
        height = header.height;
        frame_index = header.frame_index;
        timestamp_us = header.timestamp_us;
        format = header.format;
        data_size = header.data_size;
      }),
    )

unfoldable pub lock_handle : Memory → Handle → Handle × Option FrameData
lock_handle memory h =
    if not h.is_attached
    then (h, none)
    else if h.is_locked
    then (h, none)
    else if not memory.locks
    then (h, none)
    else check_locked memory.header (call locked (record h { is_locked = true }))

unfoldable pub unlock_handle : Handle → Handle
unlock_handle h = if h.is_locked then call unlocked (record h { is_locked = false }) else h

-- `frameSize` on a handle; its answer is none for an empty QSize.
unfoldable pub size_handle : Memory → Handle → Handle × Option (ℕ × ℕ)
size_handle memory h =
    let size : Option (ℕ × ℕ) = elim memory.header [
      | none ↦ none
      | some header ↦
          if nat_eqb header.magic shared_frame_magic
          then some (header.width, header.height)
          else none
    ] in
    if not h.is_attached
    then (h, none)
    else if not memory.locks
    then (h, none)
    else (call unlocked (call locked h), size)

-- An operation on the handle of a device, if there is one.
abbrev pub on_handle {ℓ} :
    {A : Type ℓ}
    → (Handle → Handle × Option A)
    → String
    → SharedMemoryManager
    → SharedMemoryManager × Option A
on_handle act id m = elim (lookup id m.handles) [
  | none ↦ (m, none)
  | some h ↦ (record m { handles = insert id (act h).0 m.handles }, (act h).1)
]

unfoldable pub read_video_frame :
    Memory → String → SharedMemoryManager → SharedMemoryManager × Option VideoFrame
read_video_frame memory id m = on_handle (read_handle memory) id m

unfoldable pub lock_frame :
    Memory → String → SharedMemoryManager → SharedMemoryManager × Option FrameData
lock_frame memory id m = on_handle (lock_handle memory) id m

unfoldable pub unlock_frame : String → SharedMemoryManager → SharedMemoryManager
unlock_frame id m = elim (lookup id m.handles) [
  | none ↦ m
  | some h ↦ record m { handles = insert id (unlock_handle h) m.handles }
]

unfoldable pub frame_size :
    Memory → String → SharedMemoryManager → SharedMemoryManager × Option (ℕ × ℕ)
frame_size memory id m = on_handle (size_handle memory) id m

unfoldable pub last_frame_index : String → SharedMemoryManager → ℕ
last_frame_index id m = elim (lookup id m.handles) [ none ↦ 0 | some h ↦ h.last_frame_index ]

unfoldable pub is_new_frame : String → ℕ → SharedMemoryManager → Bool
is_new_frame id index m = elim (lookup id m.handles) [
  | none ↦ true
  | some h ↦ ltb h.last_frame_index index
]
