-- ===== src/Video/Ending.antt =====
-- The end of the program for the three video tasks: the control task and these side by side. `video_task`
-- starts each filter with a record on its own stack, and nothing waits for the filters, which so may
-- outlive their records.
pub mod Descent
pub mod Stops
pub mod Stranded
pub mod Lost
pub mod Fits
pub mod Safe
use ptr24_lab.Prelude.{ℕ, ◌≡◌, ◌≢◌, true, false, some, Outcome, ok, fault}
use ptr24_lab.Control.Events.{Events, video_running}
use ptr24_lab.Control.Task.{CtlData, apply_inputs}
use ptr24_lab.Image.Grayscale.{Img1D}
use ptr24_lab.Wav.Files.{Files}
use ptr24_lab.Video.Filters.{video_resolution, EdgeTask}
use ptr24_lab.Video.Play.{
  Player, Round, waits, exits, replays, plays, after_frame, greyscale_running, convolution_running,
}
use ptr24_lab.Video.Edges.{edge_start, edge_finish, grey_round}

-- Where a task is: at the test of its loop, in the wait for its flag, in its round, or past its end. A task
-- has crashed where it does what C leaves undefined, and is gone where the program exits.
pub data TaskPlace : Type 0 where
  testing waiting working ended crashed gone : TaskPlace

-- Once the program has ended: how many steps of a task are left at most.
abbrev pub steps_left : TaskPlace → ℕ
steps_left testing = 1
steps_left waiting = 3
steps_left working = 2
steps_left ended = 0
steps_left crashed = 0
steps_left gone = 0

module _ (fs : Files) (e : Events) where
  pub record PictureTasks : Type 0 where
    pub ctl : CtlData e
    pub video : TaskPlace
    pub player : Player fs e
    pub edges : TaskPlace
    pub task : EdgeTask
    pub greys : TaskPlace
    pub grey_image : Img1D

  -- The round of `video_task` past its wait.
  unfoldable pub frame_round : CtlData e → Player fs e → Outcome (Round fs e)
  unfolding after_frame
  frame_round ctl p =
      let (r, file') = fs.read p.video_file video_resolution in
      after_frame fs e r ctl.control_event (record p { video_file = file' })

  -- How it goes on after such a round, which does not wait.
  abbrev pub after_round : Outcome (Round fs e) → PictureTasks → PictureTasks
  after_round fault s = record s { video = crashed }
  after_round (ok waits) s = record s { video = testing }
  after_round (ok exits) s = record s { video = gone; edges = gone; greys = gone }
  after_round (ok (replays p)) s = record s { video = testing; player = p }
  after_round (ok (plays p)) s = record s { video = testing; player = p }

  -- A filter goes through a record of `video_task` to the frame, to the event group and to the shared
  -- data, in each test, start and end of a round; once `video_task` has ended the record is gone. A round
  -- of the edge filter has two steps, one of the grey filter is one.
  pub data PictureStep (s : PictureTasks) : PictureTasks → Type 0 where
    control :
        (keys word : ℕ)
        → s.video ≢ gone
        → s.ctl.running ≡ true
        → PictureStep s (record s { ctl = apply_inputs e keys word s.ctl })
    enter :
        s.video ≡ testing
        → s.ctl.running ≡ true
        → s.ctl.video_on ≡ true
        → PictureStep s (record s { video = working })
    wait :
        s.video ≡ testing
        → s.ctl.running ≡ true
        → s.ctl.video_on ≡ false
        → PictureStep s (record s { video = waiting })
    leave : s.video ≡ testing → s.ctl.running ≡ false → PictureStep s (record s { video = ended })
    wake :
        s.video ≡ waiting
        → e.is_set s.ctl.control_event video_running ≡ true
        → PictureStep s (record s { video = working })
    play : s.video ≡ working → PictureStep s (after_round (frame_round s.ctl s.player) s)
    test_on :
        s.edges ≡ testing
        → s.video ≢ ended
        → s.ctl.running ≡ true
        → PictureStep s (record s { edges = waiting })
    test_off :
        s.edges ≡ testing
        → s.video ≢ ended
        → s.ctl.running ≡ false
        → PictureStep s (record s { edges = ended })
    test_lost : s.edges ≡ testing → s.video ≡ ended → PictureStep s (record s { edges = crashed })
    start :
        (t : EdgeTask)
        → s.edges ≡ waiting
        → s.video ≢ ended
        → edge_start fs e s.player s.task ≡ ok (some t)
        → PictureStep s (record s { edges = working; task = t })
    start_faulty :
        s.edges ≡ waiting
        → s.video ≢ ended
        → edge_start fs e s.player s.task ≡ fault
        → PictureStep s (record s { edges = crashed })
    start_lost :
        s.edges ≡ waiting
        → s.video ≡ ended
        → e.is_set s.player.video_task_event convolution_running ≡ true
        → PictureStep s (record s { edges = crashed })
    finish :
        (p : Player fs e) (t : EdgeTask)
        → s.edges ≡ working
        → s.video ≢ ended
        → edge_finish fs e s.player s.task ≡ ok (p, t)
        → PictureStep s (record s { edges = testing; player = p; task = t })
    finish_faulty :
        s.edges ≡ working
        → s.video ≢ ended
        → edge_finish fs e s.player s.task ≡ fault
        → PictureStep s (record s { edges = crashed })
    finish_lost : s.edges ≡ working → s.video ≡ ended → PictureStep s (record s { edges = crashed })
    grey_on :
        s.greys ≡ testing
        → s.video ≢ ended
        → s.ctl.running ≡ true
        → PictureStep s (record s { greys = waiting })
    grey_off :
        s.greys ≡ testing
        → s.video ≢ ended
        → s.ctl.running ≡ false
        → PictureStep s (record s { greys = ended })
    grey_lost : s.greys ≡ testing → s.video ≡ ended → PictureStep s (record s { greys = crashed })
    grey_wake :
        s.greys ≡ waiting
        → s.video ≢ ended
        → e.is_set s.player.video_task_event greyscale_running ≡ true
        → PictureStep s (record s { greys = working })
    grey_wake_lost :
        s.greys ≡ waiting
        → s.video ≡ ended
        → e.is_set s.player.video_task_event greyscale_running ≡ true
        → PictureStep s (record s { greys = crashed })
    show_grey :
        (p : Player fs e) (img : Img1D)
        → s.greys ≡ working
        → s.video ≢ ended
        → grey_round fs e s.player s.grey_image ≡ ok (p, img)
        → PictureStep s (record s { greys = testing; player = p; grey_image = img })
    show_grey_faulty :
        s.greys ≡ working
        → s.video ≢ ended
        → grey_round fs e s.player s.grey_image ≡ fault
        → PictureStep s (record s { greys = crashed })
    show_grey_lost :
        s.greys ≡ working → s.video ≡ ended → PictureStep s (record s { greys = crashed })

  pub data PictureReach (s : PictureTasks) : PictureTasks → Type 0 where
    here : PictureReach s s
    later : {t u : PictureTasks} → PictureReach s t → PictureStep t u → PictureReach s u
