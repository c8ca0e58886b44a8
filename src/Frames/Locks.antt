-- ===== src/Frames/Locks.antt =====
-- SharedMemoryManager: the lock of a region, and the test for new frames after a read.
use quick_desk.Base.{
  ℕ, ◌≡◌, refl, sym, ◌∙◌, inl, inr, Bool, true, false, not, ◌&&◌, ◌||◌, String, List, [], ◌∷◌, ◌++◌,
  Option, none, some, if◌then◌else◌, if_split, ltb, nat_eqb, str_eq, eq_iff, string_eq, is_some,
  arith, Bool-cases, Option-cases,
}
use quick_desk.Base.Dict.{lookup, lookup-insert}
use quick_desk.Frames.Region.{SharedFrameHeader, is_known, is_sized, plain_size, VideoFrame}
use quick_desk.Frames.Manager.{
  LockCall, locked, unlocked, Handle, SharedMemoryManager, Memory, call, read_locked, read_handle,
  FrameData, check_locked, lock_handle, unlock_handle, size_handle, read_video_frame, is_attached,
  is_new_frame,
}

-- Whether the lock is held after the calls, from before them.
unfoldable pub is_held : Bool → List LockCall → Bool
is_held held [] = held
is_held held (locked ∷ calls) = is_held true calls
is_held held (unlocked ∷ calls) = is_held false calls

is_held-locked : (held : Bool) (calls : List LockCall) → is_held held (calls ++ locked ∷ []) ≡ true
unfolding is_held
is_held-locked held [] = refl
is_held-locked held (locked ∷ calls) = is_held-locked true calls
is_held-locked held (unlocked ∷ calls) = is_held-locked false calls

is_held-unlocked :
    (held : Bool) (calls : List LockCall) → is_held held (calls ++ unlocked ∷ []) ≡ false
unfolding is_held
is_held-unlocked held [] = refl
is_held-unlocked held (locked ∷ calls) = is_held-unlocked true calls
is_held-unlocked held (unlocked ∷ calls) = is_held-unlocked false calls

-- The flag of the handle tells whether it holds the lock.
abbrev pub IsTrue : Handle → Type 0
IsTrue h = h.is_locked ≡ is_held false h.calls

check_locked-holds :
    (header : Option SharedFrameHeader) (h : Handle)
    → h.is_locked ≡ true
    → is_held false h.calls ≡ true
    → IsTrue (check_locked header h).0
      × ((check_locked header h).0.is_locked ≡ is_some (check_locked header h).1)
unfolding check_locked
check_locked-holds none h l c = (sym (is_held-unlocked false h.calls), refl)
check_locked-holds (some header) h l c =
    let P : Handle × Option FrameData → Type 0 = λ r. IsTrue r.0 × (r.0.is_locked ≡ is_some r.1) in
    if_split P (not (is_known header)) (λ _. (sym (is_held-unlocked false h.calls), refl))
      λ _.
        if_split P (not (is_sized header) || not (nat_eqb header.data_size (plain_size header)))
          (λ _. (sym (is_held-unlocked false h.calls), refl)) (λ _. (l ∙ sym c, l))

lock_handle-flag :
    (memory : Memory) (h : Handle)
    → IsTrue h
    → h.is_locked ≡ false
    → IsTrue (lock_handle memory h).0
      × ((lock_handle memory h).0.is_locked ≡ is_some (lock_handle memory h).1)
unfolding lock_handle
lock_handle-flag memory h t f =
    let P : Handle × Option FrameData → Type 0 = λ r. IsTrue r.0 × (r.0.is_locked ≡ is_some r.1) in
    if_split P (not h.is_attached) (λ _. (t, f))
      λ _.
        if_split P h.is_locked (λ _. (t, f))
          λ _.
            if_split P (not memory.locks) (λ _. (t, f))
              λ _.
                check_locked-holds memory.header (call locked (record h { is_locked = true })) refl
                  (is_held-locked false h.calls)

unlock_handle-frees : (h : Handle) → IsTrue h → is_held false (unlock_handle h).calls ≡ false
unfolding unlock_handle
unlock_handle-frees h t = elim (Bool-cases h.is_locked) [
  | inl e ↦ rw (e, unlock_handle) (is_held-unlocked false h.calls)
  | inr e ↦ rw (e, unlock_handle) (sym t ∙ e)
]

read_handle-frees :
    (memory : Memory) (h : Handle)
    → is_held false h.calls ≡ false
    → is_held false (read_handle memory h).0.calls ≡ false
unfolding read_handle
read_handle-frees memory h free =
    let P : Handle × Option VideoFrame → Type 0 = λ r. is_held false r.0.calls ≡ false in
    if_split P (not h.is_attached) (λ _. free)
      λ _.
        if_split P (not memory.locks) (λ _. free)
          λ _. is_held-unlocked false (read_locked memory.header (call locked h)).0.calls

size_handle-frees :
    (memory : Memory) (h : Handle)
    → is_held false h.calls ≡ false
    → is_held false (size_handle memory h).0.calls ≡ false
unfolding size_handle
size_handle-frees memory h free =
    let P : Handle × Option (ℕ × ℕ) → Type 0 = λ r. is_held false r.0.calls ≡ false in
    if_split P (not h.is_attached) (λ _. free)
      λ _.
        if_split P (not memory.locks) (λ _. free)
          λ _. is_held-unlocked false (h.calls ++ locked ∷ [])

-- On a handle whose flag tells the truth of its lock and says that it is free, `lockFrame` keeps
-- the lock exactly if it gives a frame out, and its flag then tells the truth, `unlockFrame` after
-- it frees the lock, and `readVideoFrame` and `frameSize` leave the lock free, on every branch.
pub lock_handle-holds :
    (memory : Memory) (h : Handle)
    → IsTrue h
    → h.is_locked ≡ false
    → (IsTrue (lock_handle memory h).0
        × ((lock_handle memory h).0.is_locked ≡ is_some (lock_handle memory h).1))
      × (is_held false (unlock_handle (lock_handle memory h).0).calls ≡ false)
      × (is_held false (read_handle memory h).0.calls ≡ false)
      × (is_held false (size_handle memory h).0.calls ≡ false)
lock_handle-holds memory h t f =
    let lock = lock_handle-flag memory h t f in
    (
      lock,
      unlock_handle-frees (lock_handle memory h).0 lock.0,
      read_handle-frees memory h (sym t ∙ f),
      size_handle-frees memory h (sym t ∙ f),
    )

-- After a read where the region shows a header, an index is new for a device exactly if it is above
-- the header's, if the read is of that device, which is attached, and the lock succeeds and the
-- header is known; for any other device, and after any other read, it is new as it was before.
pub is_new_frame-read_video_frame :
    (id j : String) (index : ℕ) (memory : Memory) (header : SharedFrameHeader)
    (m : SharedMemoryManager)
    → memory.header ≡ some header
    → is_new_frame j index (read_video_frame memory id m).0 ≡ (
        if str_eq id j && (is_attached id m && (memory.locks && is_known header))
        then ltb header.frame_index index
        else is_new_frame j index m)
unfolding is_new_frame read_video_frame read_handle read_locked is_attached
is_new_frame-read_video_frame id j index memory header m e =
    elim (Option-cases (lookup id m.handles)) [
      | inl g ↦ ground (arith, g, e, eq_iff id j)
      | inr (h, g) ↦
          ground (arith, g, e, eq_iff id j, lookup-insert id j (read_handle memory h).0 m.handles)
    ]
