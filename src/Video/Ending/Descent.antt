-- ===== src/Video/Ending/Descent.antt =====
-- Once the program has ended, each step of the video tasks of video_setup.c brings them nearer to rest.
use ptr24_lab.Prelude.{ℕ, ◌+◌, ◌<◌, ◌≡◌, refl, false, Outcome, ok, fault, arith}
use ptr24_lab.Control.Events.{Events}
use ptr24_lab.Wav.Files.{Files}
use ptr24_lab.Video.Play.{Round, waits, exits, replays, plays}
use ptr24_lab.Video.Ending.{
  working, PictureTasks, after_round, PictureStep, control, enter, wait, leave, wake, play, test_on,
  test_off, test_lost, start, start_faulty, start_lost, finish, finish_faulty, finish_lost, grey_on,
  grey_off, grey_lost, grey_wake, grey_wake_lost, show_grey, show_grey_faulty, show_grey_lost,
  steps_left,
}

module _ (fs : Files) (e : Events) where
  abbrev pub rank : PictureTasks fs e → ℕ
  rank s = steps_left s.video + steps_left s.edges + steps_left s.greys

  round_down :
      (r : Outcome (Round fs e)) (s : PictureTasks fs e)
      → s.video ≡ working
      → (rank (after_round fs e r s) < rank s) × ((after_round fs e r s).ctl ≡ s.ctl)
  round_down fault s at = (rw at (omega arith), refl)
  round_down (ok waits) s at = (rw at (omega arith), refl)
  round_down (ok exits) s at = (rw at (omega arith), refl)
  round_down (ok (replays p)) s at = (rw at (omega arith), refl)
  round_down (ok (plays p)) s at = (rw at (omega arith), refl)

  pub goes_down :
      (s t : PictureTasks fs e)
      → s.ctl.running ≡ false
      → PictureStep fs e s t
      → (rank t < rank s) × (t.ctl ≡ s.ctl)
  goes_down s t off (control keys word at on) = absurd (ground arith)
  goes_down s t off (enter at on shown) = absurd (ground arith)
  goes_down s t off (wait at on shown) = absurd (ground arith)
  goes_down s t off (leave at off') = (rw at (omega arith), refl)
  goes_down s t off (wake at set) = (rw at (omega arith), refl)
  goes_down s t off (play at) = round_down _ s at
  goes_down s t off (test_on at alive on) = absurd (ground arith)
  goes_down s t off (test_off at alive off') = (rw at (omega arith), refl)
  goes_down s t off (test_lost at lost) = (rw at (omega arith), refl)
  goes_down s t off (start task at alive runs) = (rw at (omega arith), refl)
  goes_down s t off (start_faulty at alive runs) = (rw at (omega arith), refl)
  goes_down s t off (start_lost at lost set) = (rw at (omega arith), refl)
  goes_down s t off (finish p task at alive runs) = (rw at (omega arith), refl)
  goes_down s t off (finish_faulty at alive runs) = (rw at (omega arith), refl)
  goes_down s t off (finish_lost at lost) = (rw at (omega arith), refl)
  goes_down s t off (grey_on at alive on) = absurd (ground arith)
  goes_down s t off (grey_off at alive off') = (rw at (omega arith), refl)
  goes_down s t off (grey_lost at lost) = (rw at (omega arith), refl)
  goes_down s t off (grey_wake at alive up) = (rw at (omega arith), refl)
  goes_down s t off (grey_wake_lost at lost up) = (rw at (omega arith), refl)
  goes_down s t off (show_grey p img at alive runs) = (rw at (omega arith), refl)
  goes_down s t off (show_grey_faulty at alive runs) = (rw at (omega arith), refl)
  goes_down s t off (show_grey_lost at lost) = (rw at (omega arith), refl)
