-- ===== src/Video/Ending/Stops.antt =====
-- Once the program has ended, the edge filter and `video_task` of video_setup.c come to rest.
use ptr24_lab.Prelude.{
  ℕ, ◌<◌, ◌≡◌, ◌≢◌, ◌⊎◌, inl, inr, refl, ap, true, false, Bool, if◌then◌else◌, Bool-cases, Outcome,
  ok, fault, ◌>>=◌, List, Option, some, none, arith,
}
use ptr24_lab.Control.Events.{Events, video_running}
use ptr24_lab.Wav.Files.{Files}
use ptr24_lab.Image.Grayscale.{Img1D, rgba_to_grayscale8}
use ptr24_lab.Video.Filters.{video_image, EdgeTask}
use ptr24_lab.Video.Play.{Player, greyscale_running, convolution_running}
use ptr24_lab.Video.Edges.{edge_start, edge_finish, grey_round}
use ptr24_lab.Video.Ending.Descent.{rank, goes_down}
use ptr24_lab.Video.Ending.{
  TaskPlace, testing, waiting, working, ended, crashed, gone, PictureTasks, PictureStep, leave,
  wake, play, test_off, test_lost, start, start_faulty, start_lost, finish, finish_faulty,
  finish_lost, grey_off, grey_lost, grey_wake, grey_wake_lost, show_grey, show_grey_faulty,
  show_grey_lost, steps_left,
}

module _ (fs : Files) (e : Events) where
  -- A task has no step left, past its end, crashed or gone, or waits for a flag that is down.
  abbrev pub VideoRests : PictureTasks fs e → Type 0
  VideoRests s =
      (steps_left s.video ≡ 0)
      ⊎ ((s.video ≡ waiting) × (e.is_set s.ctl.control_event video_running ≡ false))

  abbrev pub EdgesRest : PictureTasks fs e → Type 0
  EdgesRest s =
      (steps_left s.edges ≡ 0)
      ⊎ ((s.edges ≡ waiting) × (e.is_set s.player.video_task_event convolution_running ≡ false))

  abbrev pub GreysRest : PictureTasks fs e → Type 0
  GreysRest s =
      (steps_left s.greys ≡ 0)
      ⊎ ((s.greys ≡ waiting) × (e.is_set s.player.video_task_event greyscale_running ≡ false))

  video_moves :
      (s : PictureTasks fs e) (at : TaskPlace)
      → s.ctl.running ≡ false
      → s.video ≡ at
      → VideoRests s ⊎ ((t : PictureTasks fs e) × PictureStep fs e s t)
  video_moves s testing off at = inr (_, leave at off)
  video_moves s working off at = inr (_, play at)
  video_moves s ended off at = inl (inl (ap steps_left at))
  video_moves s crashed off at = inl (inl (ap steps_left at))
  video_moves s gone off at = inl (inl (ap steps_left at))
  video_moves s waiting off at = elim (Bool-cases (e.is_set s.ctl.control_event video_running)) [
    | inl up ↦ inr (_, wake at up)
    | inr down ↦ inl (inr (at, down))
  ]

  -- What the filter does at the end of a round, by what that gives.
  finishes :
      (s : PictureTasks fs e) (r : Outcome (Player fs e × EdgeTask))
      → s.edges ≡ working
      → s.video ≢ ended
      → edge_finish fs e s.player s.task ≡ r
      → (t : PictureTasks fs e) × PictureStep fs e s t
  finishes s fault at alive runs = (_, finish_faulty at alive runs)
  finishes s (ok (p, task)) at alive runs = (_, finish p task at alive runs)

  none_if :
      (b : Bool) (r : Outcome (List ℕ)) (task : EdgeTask)
      → (if b then (r >>= λ grey. ok (some (record task { grey_8 = grey }))) else ok none) ≡ ok none
      → b ≡ false
  none_if false r task same = refl
  none_if true fault task same = absurd (ground arith)
  none_if true (ok grey) task same = absurd (ground arith)

  none_down :
      (p : Player fs e) (task : EdgeTask)
      → edge_start fs e p task ≡ ok none
      → e.is_set p.video_task_event convolution_running ≡ false
  unfolding edge_start
  none_down p task runs =
      none_if (e.is_set p.video_task_event convolution_running)
        (rgba_to_grayscale8 (video_image p.frame) task.grey_8) task runs

  starts :
      (s : PictureTasks fs e) (r : Outcome (Option EdgeTask))
      → s.edges ≡ waiting
      → s.video ≢ ended
      → edge_start fs e s.player s.task ≡ r
      → EdgesRest s ⊎ ((t : PictureTasks fs e) × PictureStep fs e s t)
  starts s fault at alive runs = inr (_, start_faulty at alive runs)
  starts s (ok (some task)) at alive runs = inr (_, start task at alive runs)
  starts s (ok none) at alive runs = inl (inr (at, none_down s.player s.task runs))

  edges_move :
      (s : PictureTasks fs e) (at : TaskPlace)
      → s.ctl.running ≡ false
      → s.video ≢ ended
      → s.edges ≡ at
      → EdgesRest s ⊎ ((t : PictureTasks fs e) × PictureStep fs e s t)
  edges_move s testing off alive at = inr (_, test_off at alive off)
  edges_move s working off alive at = inr (finishes s _ at alive refl)
  edges_move s ended off alive at = inl (inl (ap steps_left at))
  edges_move s crashed off alive at = inl (inl (ap steps_left at))
  edges_move s gone off alive at = inl (inl (ap steps_left at))
  edges_move s waiting off alive at = starts s _ at alive refl

  -- The same without the record of `video_task`.
  edges_move_lost :
      (s : PictureTasks fs e) (at : TaskPlace)
      → s.video ≡ ended
      → s.edges ≡ at
      → EdgesRest s ⊎ ((t : PictureTasks fs e) × PictureStep fs e s t)
  edges_move_lost s testing lost at = inr (_, test_lost at lost)
  edges_move_lost s working lost at = inr (_, finish_lost at lost)
  edges_move_lost s ended lost at = inl (inl (ap steps_left at))
  edges_move_lost s crashed lost at = inl (inl (ap steps_left at))
  edges_move_lost s gone lost at = inl (inl (ap steps_left at))
  edges_move_lost s waiting lost at =
      elim (Bool-cases (e.is_set s.player.video_task_event convolution_running)) [
        | inl up ↦ inr (_, start_lost at lost up)
        | inr down ↦ inl (inr (at, down))
      ]

  -- What the grey filter does in a round, by what that gives.
  shows_grey :
      (s : PictureTasks fs e) (r : Outcome (Player fs e × Img1D))
      → s.greys ≡ working
      → s.video ≢ ended
      → grey_round fs e s.player s.grey_image ≡ r
      → (t : PictureTasks fs e) × PictureStep fs e s t
  shows_grey s fault at alive runs = (_, show_grey_faulty at alive runs)
  shows_grey s (ok (p, img)) at alive runs = (_, show_grey p img at alive runs)

  greys_move :
      (s : PictureTasks fs e) (at : TaskPlace)
      → s.ctl.running ≡ false
      → s.video ≢ ended
      → s.greys ≡ at
      → GreysRest s ⊎ ((t : PictureTasks fs e) × PictureStep fs e s t)
  greys_move s testing off alive at = inr (_, grey_off at alive off)
  greys_move s working off alive at = inr (shows_grey s _ at alive refl)
  greys_move s ended off alive at = inl (inl (ap steps_left at))
  greys_move s crashed off alive at = inl (inl (ap steps_left at))
  greys_move s gone off alive at = inl (inl (ap steps_left at))
  greys_move s waiting off alive at =
      elim (Bool-cases (e.is_set s.player.video_task_event greyscale_running)) [
        | inl up ↦ inr (_, grey_wake at alive up)
        | inr down ↦ inl (inr (at, down))
      ]

  greys_move_lost :
      (s : PictureTasks fs e) (at : TaskPlace)
      → s.video ≡ ended
      → s.greys ≡ at
      → GreysRest s ⊎ ((t : PictureTasks fs e) × PictureStep fs e s t)
  greys_move_lost s testing lost at = inr (_, grey_lost at lost)
  greys_move_lost s working lost at = inr (_, show_grey_lost at lost)
  greys_move_lost s ended lost at = inl (inl (ap steps_left at))
  greys_move_lost s crashed lost at = inl (inl (ap steps_left at))
  greys_move_lost s gone lost at = inl (inl (ap steps_left at))
  greys_move_lost s waiting lost at =
      elim (Bool-cases (e.is_set s.player.video_task_event greyscale_running)) [
        | inl up ↦ inr (_, grey_wake_lost at lost up)
        | inr down ↦ inl (inr (at, down))
      ]

  is_ended :
      (s : PictureTasks fs e) (at : TaskPlace)
      → s.video ≡ at
      → (s.video ≡ ended) ⊎ (s.video ≢ ended)
  is_ended s ended at = inl at
  is_ended s testing at = inr (λ h. absurd (ground arith))
  is_ended s waiting at = inr (λ h. absurd (ground arith))
  is_ended s working at = inr (λ h. absurd (ground arith))
  is_ended s crashed at = inr (λ h. absurd (ground arith))
  is_ended s gone at = inr (λ h. absurd (ground arith))

  edges_go :
      (s : PictureTasks fs e)
      → s.ctl.running ≡ false
      → EdgesRest s ⊎ ((t : PictureTasks fs e) × PictureStep fs e s t)
  edges_go s off = elim (is_ended s s.video refl) [
    | inl lost ↦ edges_move_lost s s.edges lost refl
    | inr alive ↦ edges_move s s.edges off alive refl
  ]

  greys_go :
      (s : PictureTasks fs e)
      → s.ctl.running ≡ false
      → GreysRest s ⊎ ((t : PictureTasks fs e) × PictureStep fs e s t)
  greys_go s off = elim (is_ended s s.video refl) [
    | inl lost ↦ greys_move_lost s s.greys lost refl
    | inr alive ↦ greys_move s s.greys off alive refl
  ]

  -- Once the program has ended, `video_task` and the two filters all rest, each past its end, crashed,
  -- gone with the exit of the program, or in the wait for a flag that is down, or one of them can take a
  -- step; each step lowers the number of steps
  -- that are left at most, and leaves the shared data as they are.
  pub pictures_end :
      (s : PictureTasks fs e)
      → s.ctl.running ≡ false
      → ((VideoRests s × EdgesRest s × GreysRest s)
          ⊎ ((t : PictureTasks fs e) × PictureStep fs e s t))
        × ((t : PictureTasks fs e)
            → PictureStep fs e s t
            → (rank fs e t < rank fs e s) × (t.ctl ≡ s.ctl))
  pictures_end s off = (
    elim (video_moves s s.video off refl) [
      | inr step ↦ inr step
      | inl v ↦ elim (edges_go s off) [
        | inr step ↦ inr step
        | inl d ↦ elim (greys_go s off) [ inr step ↦ inr step | inl g ↦ inl (v, d, g) ]
      ]
    ],
    λ t step. goes_down fs e s t off step,
  )
