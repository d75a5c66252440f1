-- ===== src/Video/Device.antt =====
-- video_utils.c: the device of the screen, and the slow way to write a frame to it.
use ptr24_lab.Prelude.{
  ℕ, ◌+◌, ◌≡◌, ◌≢◌, ◌⊎◌, ◌≤◌, inl, inr, refl, Bool, Bool-cases, true, false, ◌&&◌, ◌==◌, List,
  length, take, arith, if◌then◌else◌, ap, ◌∙◌, length-take, take-length,
}
use ptr24_lab.Io.Board.{Pointer}
use ptr24_lab.Video.Filters.{video_resolution}
use ptr24_lab.Video.Interface.{VideoUtils}
use ptr24_lab.Wav.Files.{
  Files, IsRegular, Write, wrote, Write-cases, overwrite, Code, success, failure,
}

-- `video_fd`, as whether it is open, and `video_buf`.
pub record Screen : Type 0 where
  pub video_fd : Bool
  pub video_buf : Pointer

-- What the system answers; `mmap` of a descriptor that is not open fails.
pub record ScreenAnswers : Type 0 where
  pub creates : Bool
  pub starts : Bool
  pub opens : Bool
  pub maps : Bool

-- The bytes of the buffer that is mapped: just those of a frame.
abbrev video_buf_size : ℕ
video_buf_size = 0x4B000

video_buf_size-video_resolution : video_buf_size ≡ video_resolution
video_buf_size-video_resolution = refl

-- The descriptor is closed again if the mapping fails.
unfoldable pub init_video_wrapper : ScreenAnswers → Screen → Screen
init_video_wrapper a d =
    if a.opens && a.maps
    then record { video_fd = true; video_buf = Pointer.valid }
    else record { video_fd = false; video_buf = Pointer.map_failed }

unfoldable pub init_video : ScreenAnswers → Screen → Code × Screen
unfolding init_video_wrapper
init_video a d = if a.creates && a.starts then (success, init_video_wrapper a d) else (failure, d)

unfoldable pub clear_video : Screen → Screen
clear_video d = record d { video_fd = false }

unfoldable pub get_video_buffer : Screen → Pointer
get_video_buffer d = d.video_buf

-- The result of `write`, against the size.
unfoldable pub frame_reply : Write → ℕ → Code
frame_reply Write.failed size = failure
frame_reply (wrote k) size = if k == size then success else failure

module _ (fs : Files) where
  unfoldable pub write_frame : fs.File → List ℕ → ℕ → Code × fs.File
  unfolding frame_reply
  write_frame f frame_data size =
      let (r, f') = fs.write f (take size frame_data) in (frame_reply r size, f')

-- The calls of video_utils.h. `write` fails on a descriptor that is not open.
unfoldable pub write_screen :
    (fs : Files) → Screen × fs.File → List ℕ → ℕ → Code × (Screen × fs.File)
unfolding write_frame
write_screen fs (d, f) frame_data size =
    let (r, f') = write_frame fs f frame_data size in
    if d.video_fd then (r, (d, f')) else (failure, (d, f))

abbrev pub video_utils : Files → VideoUtils
video_utils fs = record {
  State = Screen × fs.File;
  Answers = ScreenAnswers;
  init_video = λ a (d, f). let (r, d') = init_video a d in (r, (d', f));
  clear_video = λ (d, f). (clear_video d, f);
  get_video_buffer = λ (d, f). get_video_buffer d;
  write_frame = write_screen fs;
}

-- On a regular file that is not past its end, with the frame in memory, `write_frame` either
-- returns 0, and then the file has the whole frame at its offset and stands behind it, or it
-- returns -1, and then the device failed or did not take just the frame.
write_frame_lem :
    (fs : Files) (r : IsRegular fs) (f : fs.File) (frame_data : List ℕ) (size : ℕ)
    → size ≤ length frame_data
    → r.offset f ≤ length (r.content f)
    → ((write_frame fs f frame_data size).0 ≡ success)
        × (r.content (write_frame fs f frame_data size).1
            ≡ overwrite (r.content f) (r.offset f) (take size frame_data))
        × (r.offset (write_frame fs f frame_data size).1 ≡ r.offset f + size)
      ⊎ ((write_frame fs f frame_data size).0 ≡ failure)
        × (((fs.write f (take size frame_data)).0 ≡ Write.failed)
            ⊎ ((k : ℕ) × ((fs.write f (take size frame_data)).0 ≡ wrote k) × (k ≢ size)))
unfolding write_frame
write_frame_lem fs r f frame_data size fits inside =
    let taken = take size frame_data in
    let len : length taken ≡ size = omega (arith, length-take size frame_data) in
    elim (Write-cases (fs.write f taken).0) [
      | inl e ↦ inr (ap (λ w. frame_reply w size) e, inl e)
      | inr (k, e) ↦
          let (_, content, offset) = r.write_wrote f taken k e inside in
          elim (Bool-cases (k == size)) [
            | inl same ↦
                let whole : k ≡ length taken = ground (arith, len) in
                let all : take k taken ≡ taken = ap (λ n. take n taken) whole ∙ take-length taken in
                inl (
                  ap (λ w. frame_reply w size) e ∙ rw same refl,
                  content ∙ ap (overwrite (r.content f) (r.offset f)) all,
                  omega (arith, offset, whole, len),
                )
            | inr differ ↦
                inr (ap (λ w. frame_reply w size) e ∙ rw differ refl, inr (k, e, ground arith))
          ]
    ]
