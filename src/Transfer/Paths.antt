-- ===== src/Transfer/Paths.antt =====
-- What `completedDownloadPath` gives away.
use mathlib.Core.Bool.{false≢true}
use Prim.Native.String.{◌++◌ as append_text}
use Prim.Native.String.{len}
use text.Mathlib.Text.{starts_with, get?}
use quick_desk.Base.{
  ℕ, ◌≡◌, ◌-◌, refl, sym, ap, ◌⊎◌, inl, inr, Bool, true, false, not, ◌&&◌, ◌||◌, String, List, none,
  some, arith, str_eq, if_split, get_elem?, any, Bool-cases, Option-cases, is_empty, eq_iff,
  string_eq,
}
use quick_desk.Base.Dict.{lookup}
use quick_desk.Base.Count.{count, count_none}
use quick_desk.Transfer.Data.{download, is_upload, complete, Task, TransferQueue, Files}
use quick_desk.Transfer.Sessions.{init}
use quick_desk.Transfer.Uploads.{usable}
use quick_desk.Transfer.Cancel.{task_index}
use quick_desk.Transfer.Views.{is_complete, safe_path, escapes, completed_download_path}
use quick_desk.Transfer.Steps.{Call, run}
use quick_desk.Transfer.Rooted.{run-Rooted}
use quick_desk.Transfer.Roots.{registers_root, is_stray, Rooted}

-- A directory's path that ends in a slash, as that of a file system's root does.
abbrev pub ends_in_slash : String → Bool
ends_in_slash d = elim (get? d (len d - 1) (len d)) [ none ↦ false | some e ↦ str_eq e "/" ]

-- The path is the directory or of something below it.
abbrev pub is_within : String → String → Bool
is_within d path =
    str_eq path d
    || (starts_with path (append_text d "/") || (ends_in_slash d && starts_with path d))

-- What holds of a path that is given away after a history, and of its task.
pub record IsShareable (fs : Files) (cs : List Call) (t : Task) (p : String) : Type 0 where
  pub is_download : t.direction ≡ download
  pub has_ended : t.status ≡ complete
  pub readable : usable fs t.save_path ≡ true
  pub canonical : p ≡ fs.canonical_file_path t.save_path
  pub registered : any (registers_root t.connection_id t.save_root) cs ≡ true
  pub inside : is_within (fs.canonical_file_path t.save_root) p ≡ true

straight-registered :
    (allowed : String → String → Bool) (ts : List Task) (i : ℕ) (t : Task)
    → get_elem? ts i ≡ some t
    → t.direction ≡ download
    → count (is_stray allowed) ts ≡ 0
    → allowed t.connection_id t.save_root ≡ true
straight-registered allowed ts i t g d z =
    let straight = count_none (is_stray allowed) ts i t g z in
    let down : is_upload t.direction ≡ false = ap is_upload d in ground (arith, straight, down)

module _ (fs : Files)
    (law : (a b : String)
      → is_empty (fs.canonical_file_path a) ≡ false
      → is_empty (fs.canonical_file_path b) ≡ false
      → is_within (fs.canonical_file_path a) (fs.canonical_file_path b) ≡ false
      → (fs.relative_file_path (fs.canonical_file_path a) (fs.canonical_file_path b) ≡ "..")
        ⊎ (starts_with
              (fs.relative_file_path (fs.canonical_file_path a) (fs.canonical_file_path b))
              "../"
            ≡ true)
        ⊎ (fs.is_absolute_path
              (fs.relative_file_path (fs.canonical_file_path a) (fs.canonical_file_path b))
            ≡ true)) where
  escapes_outside :
      (a b : String)
      → is_empty (fs.canonical_file_path a) ≡ false
      → is_empty (fs.canonical_file_path b) ≡ false
      → escapes fs (fs.relative_file_path (fs.canonical_file_path a) (fs.canonical_file_path b))
        ≡ false
      → is_within (fs.canonical_file_path a) (fs.canonical_file_path b) ≡ true
  escapes_outside a b p q e =
      elim (Bool-cases (is_within (fs.canonical_file_path a) (fs.canonical_file_path b))) [
        | inl it ↦ it
        | inr out ↦ elim (law a b p q out) [
          | inl up ↦ absurd (ground (arith, e, (eq_iff _ "..").1 up))
          | inr (inl above) ↦ absurd (ground (arith, e, above))
          | inr (inr other) ↦ absurd (ground (arith, e, other))
        ]
      ]

  -- The branch of `safe_path` that answers a path.
  safe_path-IsShareable :
      (cs : List Call) (t : Task)
      → (t.direction ≡ download → any (registers_root t.connection_id t.save_root) cs ≡ true)
      → is_empty (safe_path fs t) ≡ false
      → IsShareable fs cs t (safe_path fs t)
  unfolding safe_path
  safe_path-IsShareable cs t known =
      if_split P (is_upload t.direction || not (is_complete t.status)) (λ _ e. cc)
        λ a.
          if_split P (not (usable fs t.save_path)) (λ _ e. cc)
            λ b.
              if_split P (is_empty root || is_empty path) (λ _ e. cc)
                λ c.
                  if_split P (escapes fs (fs.relative_file_path root path)) (λ _ e. cc)
                    λ d e. record {
                      is_download = ground arith;
                      has_ended = ground arith;
                      readable = ground arith;
                      canonical = refl;
                      registered = known (ground arith);
                      inside =
                          escapes_outside t.save_root t.save_path (ground (arith, c))
                            (ground (arith, c)) d;
                    }
    where
      root : String
      root = fs.canonical_file_path t.save_root

      path : String
      path = fs.canonical_file_path t.save_path

      P : String → Type 0
      P p = is_empty p ≡ false → IsShareable fs cs t p

init-Rooted : (allowed : String → String → Bool) → Rooted allowed init
unfolding init lookup count
init-Rooted allowed = record { roots = λ c r e. absurd (cc e); tasks = refl }

-- After any history from the empty queue, a path that is given away for an identifier is the canonical
-- path of a readable file that a completed download with this identifier saved, and it lies within
-- the canonical path of a directory that a call of registerDownload has named for that download's
-- connection. It is assumed that the path from a directory to a file that is not within it is "..",
-- begins with "../" or is absolute.
pub completed_download_path-IsShareable :
    (fs : Files) (id : String) (cs : List Call)
    → ((a b : String)
        → is_empty (fs.canonical_file_path a) ≡ false
        → is_empty (fs.canonical_file_path b) ≡ false
        → is_within (fs.canonical_file_path a) (fs.canonical_file_path b) ≡ false
        → (fs.relative_file_path (fs.canonical_file_path a) (fs.canonical_file_path b) ≡ "..")
          ⊎ (starts_with
                (fs.relative_file_path (fs.canonical_file_path a) (fs.canonical_file_path b))
                "../"
              ≡ true)
          ⊎ (fs.is_absolute_path
                (fs.relative_file_path (fs.canonical_file_path a) (fs.canonical_file_path b))
              ≡ true))
    → is_empty (completed_download_path fs id (run cs init)) ≡ false
    → (i : ℕ) × (t : Task) × (task_index id (run cs init).tasks ≡ some i)
      × (get_elem? (run cs init).tasks i ≡ some t)
      × IsShareable fs cs t (completed_download_path fs id (run cs init))
unfolding completed_download_path
completed_download_path-IsShareable fs id cs law h =
    let q : TransferQueue = run cs init in
    let allowed : String → String → Bool = λ c r. any (registers_root c r) cs in
    let w = run-Rooted allowed cs init (λ c r e. e) (init-Rooted allowed) in
    elim (Option-cases (task_index id q.tasks)) [
      | inl e ↦ absurd (false≢true (sym (rw (e, completed_download_path) at h)))
      | inr (i, e) ↦ elim (Option-cases (get_elem? q.tasks i)) [
        | inl f ↦ absurd (false≢true (sym (rw (e, f, completed_download_path) at h)))
        | inr (t, f) ↦ (
          i,
          t,
          e,
          f,
          rw (e, f, completed_download_path)
              (safe_path-IsShareable fs law cs t
                (λ d. straight-registered allowed q.tasks i t f d w.tasks)
                (rw (e, f, completed_download_path) at h)),
        )
      ]
    ]
