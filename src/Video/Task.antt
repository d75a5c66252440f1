-- ===== src/Video/Task.antt =====
-- The three tasks of video_setup.c as a whole: what they set up, and their loops.
use ptr24_lab.Prelude.{
  ℕ, Bool, true, false, ◌&&◌, not, List, [], ◌∷◌, Option, none, some, Outcome, ok, ◌>>=◌,
  if◌then◌else◌,
}
use ptr24_lab.Control.Events.{Events, video_running}
use ptr24_lab.Control.Task.{CtlData}
use ptr24_lab.Image.Grayscale.{Img1D}
use ptr24_lab.Wav.Files.{Files}
use ptr24_lab.Video.Filters.{
  EdgeTask, convolution_start, convolution_round, greyscale_start, greyscale_round,
}
use ptr24_lab.Video.Play.{Player, Round, waits, exits, replays, plays, video_round}

-- The program exited, the task returned, it came to its end, or it waits for the video to be switched on.
pub data VideoEnd : Type 0 where
  exited unperiodic terminated blocked : VideoEnd

-- The loops of the filters, over the frames that they find as they are woken.
unfoldable pub convolution_loop : List Img1D → EdgeTask → List ℕ → Outcome (EdgeTask × List ℕ)
unfolding convolution_round
convolution_loop [] t screen = ok (t, screen)
convolution_loop (img ∷ imgs) t screen = do
  (t', screen') ← convolution_round img t screen
  convolution_loop imgs t' screen'

-- The screen afterwards, or none where the program exits.
abbrev pub after_start : List Img1D → List ℕ → Option EdgeTask → Outcome (Option (List ℕ))
after_start imgs screen none = ok none
after_start imgs screen (some t) = do
  (t', screen') ← convolution_loop imgs t screen
  ok (some screen')

unfoldable pub convolution_task :
    Option (List ℕ)
    → Option (List ℕ)
    → Option Img1D
    → Option (List ℕ)
    → List Img1D
    → List ℕ
    → Outcome (Option (List ℕ))
unfolding convolution_start convolution_loop
convolution_task conv grey result image imgs screen =
    convolution_start conv grey result image >>= after_start imgs screen

unfoldable pub greyscale_loop : List Img1D → Img1D → List ℕ → Outcome (Img1D × List ℕ)
unfolding greyscale_round
greyscale_loop [] t screen = ok (t, screen)
greyscale_loop (img ∷ imgs) t screen = do
  (t', screen') ← greyscale_round img t screen
  greyscale_loop imgs t' screen'

unfoldable pub greyscale_task :
    Option Img1D → Option (List ℕ) → List Img1D → List ℕ → Outcome (List ℕ)
unfolding greyscale_start greyscale_loop
greyscale_task greyscale_img image imgs screen = do
  t ← greyscale_start greyscale_img image
  (t', screen') ← greyscale_loop imgs t screen
  ok screen'

module _ (fs : Files) (e : Events) where
  -- What the system answers to `video_task`.
  pub record VideoAnswers : Type 0 where
    pub event : Option e.Group
    pub greyscale_starts : Bool
    pub convolution_starts : Bool
    pub periodic : Bool
    pub video_file : Option fs.File

  -- A round; a task that waits goes on only once the flag of the video is set.
  unfoldable pub woken_round : Bool → CtlData e → Player fs e → Outcome (Round fs e)
  unfolding video_round
  woken_round waiting ctl p =
      if waiting && not (e.is_set ctl.control_event video_running)
      then ok waits
      else video_round fs e ctl p

  -- What follows a round: with a frame or a restart the loop goes on.
  abbrev pub next_video :
      Round fs e
      → Player fs e
      → (Bool → Player fs e → Outcome (VideoEnd × Player fs e))
      → Outcome (VideoEnd × Player fs e)
  next_video waits p again = again true p
  next_video exits p again = ok (exited, p)
  next_video (replays p') p again = again false p'
  next_video (plays p') p again = again false p'

  -- The loop, with the shared data at each of its rounds, or as it waits, until the program stops.
  unfoldable pub video_loop :
      List (CtlData e) → Bool → Player fs e → Outcome (VideoEnd × Player fs e)
  unfolding woken_round
  video_loop [] true p = ok (blocked, p)
  video_loop [] false p = ok (terminated, p)
  video_loop (ctl ∷ ctls) waiting p =
      woken_round waiting ctl p >>= λ r. next_video r p (video_loop ctls)

  -- The task, with the tasks that it starts left aside, and the screen afterwards.
  abbrev pub with_film :
      Option fs.File → e.Group → List (CtlData e) → List ℕ → List ℕ → Outcome (VideoEnd × List ℕ)
  with_film none g ctls frame screen = ok (exited, screen)
  with_film (some f) g ctls frame screen = do
    (end, p) ←
        video_loop ctls false
          (record { video_file = f; frame = frame; screen = screen; video_task_event = g })
    ok (end, p.screen)

  abbrev pub with_video_event :
      Option e.Group
      → VideoAnswers
      → List (CtlData e)
      → List ℕ
      → List ℕ
      → Outcome (VideoEnd × List ℕ)
  with_video_event none ans ctls frame screen = ok (exited, screen)
  with_video_event (some g) ans ctls frame screen =
      let film = with_film ans.video_file g ctls frame screen in
      if ans.greyscale_starts
      then (if ans.convolution_starts
          then (if ans.periodic then film else ok (unperiodic, screen))
          else ok (exited, screen))
      else ok (exited, screen)

  unfoldable pub video_task :
      VideoAnswers → List (CtlData e) → List ℕ → List ℕ → Outcome (VideoEnd × List ℕ)
  unfolding video_loop
  video_task ans ctls frame screen = with_video_event ans.event ans ctls frame screen
