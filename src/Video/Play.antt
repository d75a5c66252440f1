-- ===== src/Video/Play.antt =====
-- The loop of `video_task`, after its set-up.
use ptr24_lab.Prelude.{
  ℕ, ◌&&◌, not, List, [], ◌∷◌, Outcome, ok, fault, ◌>>=◌, leb, if◌then◌else◌, length,
}
use ptr24_lab.Control.Events.{Events, video_running, greyscale_activation, convolution_activation}
use ptr24_lab.Control.Task.{CtlData}
use ptr24_lab.Wav.Files.{Files, Read, got, overwrite}
use ptr24_lab.Video.Filters.{video_resolution, memcpy}

-- The flags of the group that wakes the filter tasks.
abbrev pub greyscale_running : ℕ
greyscale_running = 1

abbrev pub convolution_running : ℕ
convolution_running = 2

module _ (fs : Files) (e : Events) where
  -- The file of the video, the frame in memory, the screen, and the group that wakes the filters.
  pub record Player : Type 0 where
    pub video_file : fs.File
    pub frame : List ℕ
    pub screen : List ℕ
    pub video_task_event : e.Group

  -- A round waits for the video to be switched on, ends the program, starts the file again, or deals
  -- with a frame.
  pub data Round : Type 0 where
    waits : Round
    exits : Round
    replays : Player → Round
    plays : Player → Round

  -- What is done with a frame that was read.
  unfoldable pub choose : e.Group → Player → Outcome Round
  choose control_event p =
      if e.is_set control_event convolution_activation
      then ok
          (plays (record p { video_task_event = e.signal p.video_task_event convolution_running }))
      else if e.is_set control_event greyscale_activation
      then ok
          (plays (record p { video_task_event = e.signal p.video_task_event greyscale_running }))
      else (do
        screen' ← memcpy p.screen p.frame video_resolution
        ok (plays (record p { screen = screen' })))

  unfoldable pub after_frame : Read → e.Group → Player → Outcome Round
  unfolding choose
  after_frame Read.failed control_event p = ok exits
  after_frame (got []) control_event p =
      ok (replays (record p { video_file = fs.seek p.video_file 0 }))
  after_frame (got (b ∷ bs)) control_event p =
      if leb (length (b ∷ bs)) (length p.frame)
      then choose control_event (record p { frame = overwrite p.frame 0 (b ∷ bs) })
      else fault

  -- One round, with the shared data as they are then. The wait is left only once its flag is set.
  unfoldable pub video_round : CtlData e → Player → Outcome Round
  unfolding after_frame
  video_round ctl p =
      let (r, file') = fs.read p.video_file video_resolution in
      if not ctl.video_on && not (e.is_set ctl.control_event video_running)
      then ok waits
      else after_frame r ctl.control_event (record p { video_file = file' })
