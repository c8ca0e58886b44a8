-- ===== src/Frames/Tests.antt =====
-- The shared frames on concrete headers.
use quick_desk.Base.{
  ◌≡◌, refl, true, false, ◌&&◌, [], ◌∷◌, none, some, if◌then◌else◌, ltb, str_eq, is_some, arith,
}
use quick_desk.Frames.Region.{
  SharedFrameHeader, planes_of, frame_of, padded_size, plain_size, is_known,
}
use quick_desk.Frames.Manager.{
  Handle, SharedMemoryManager, Memory, lock_handle, unlock_handle, read_handle, size_handle,
  is_attached, check_locked, is_new_frame, read_video_frame,
}
use quick_desk.Frames.Planes.{Tiles, frame_of-Tiles}
use quick_desk.Frames.Locks.{is_held, IsTrue, lock_handle-holds, is_new_frame-read_video_frame}

-- A frame of 4 by 2 pixels, whose lines are padded to 6 bytes.
abbrev padded : SharedFrameHeader
padded = record {
  magic = 1363429974;
  version = 1;
  width = 4;
  height = 2;
  format = 3;
  frame_index = 7;
  timestamp_us = 0;
  data_size = 18;
  y_stride = 6;
  u_stride = 3;
  v_stride = 3;
}

frame_of-Tiles_example : Tiles padded (planes_of padded)
unfolding frame_of padded_size
frame_of-Tiles_example =
    frame_of-Tiles padded (planes_of padded) (omega arith) (omega arith) (omega arith) refl

abbrev handle : Handle
handle = record {
  device_id = "111";
  shared_memory_name = "shm";
  last_frame_index = 3;
  is_attached = true;
  is_locked = false;
  calls = [];
}

abbrev memory : Memory
memory = record { locks = true; header = some padded }

-- `lockFrame` refuses the padded frame, which `readVideoFrame` takes.
lock_padded : (lock_handle memory handle).1 ≡ none
unfolding lock_handle plain_size check_locked
lock_padded = refl

lock_handle-holds_example :
    (IsTrue (lock_handle memory handle).0
      × ((lock_handle memory handle).0.is_locked ≡ is_some (lock_handle memory handle).1))
    × (is_held false (unlock_handle (lock_handle memory handle).0).calls ≡ false)
    × (is_held false (read_handle memory handle).0.calls ≡ false)
    × (is_held false (size_handle memory handle).0.calls ≡ false)
unfolding is_held
lock_handle-holds_example = lock_handle-holds memory handle refl refl

abbrev manager : SharedMemoryManager
manager = record { handles = ("111", handle) ∷ []; signals = [] }

is_new_frame-read_video_frame_example :
    is_new_frame "111" 7 (read_video_frame memory "111" manager).0 ≡ (
      if str_eq "111" "111" && (is_attached "111" manager && (memory.locks && is_known padded))
      then ltb padded.frame_index 7
      else is_new_frame "111" 7 manager)
is_new_frame-read_video_frame_example =
    is_new_frame-read_video_frame "111" "111" 7 memory padded manager refl
