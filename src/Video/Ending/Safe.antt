-- ===== src/Video/Ending/Safe.antt =====
-- The memory of `video_task` and of the filters of video_setup.c, in any order of their steps.
use ptr24_lab.Prelude.{◌≡◌, ◌≢◌, ◌⊎◌, inl, inr, refl, Outcome, ok, fault, arith}
use std.Path.{subst}
use ptr24_lab.Control.Events.{Events}
use ptr24_lab.Wav.Files.{Files, IsRegular}
use ptr24_lab.Video.Play.{Player, Round, waits, exits, replays, plays}
use ptr24_lab.Video.Ending.{
  TaskPlace, testing, waiting, working, ended, crashed, gone, PictureTasks, frame_round,
  after_round, PictureStep, control, enter, wait, leave, wake, play, test_on, test_off, test_lost,
  start, start_faulty, start_lost, finish, finish_faulty, finish_lost, grey_on, grey_off, grey_lost,
  grey_wake, grey_wake_lost, show_grey, show_grey_faulty, show_grey_lost, PictureReach, here, later,
}
use ptr24_lab.Video.Ending.Fits.{
  TaskFit, PlayerFit, RoundFit, StartFit, FinishFit, frame_round-RoundFit, edge_start-StartFit,
  edge_finish-FinishFit, ImageFit, GreyFit, grey_round-GreyFit,
}

module _ (fs : Files) (r : IsRegular fs) (e : Events) where
  -- A filter has not crashed, or it had to go on without the record of `video_task`.
  abbrev RunsBeside : TaskPlace → TaskPlace → Type 0
  RunsBeside filter at = (filter ≢ crashed) ⊎ (at ≡ ended)

  -- All memory fits, and nothing has crashed but for filters without that record.
  record Intact (s : PictureTasks fs e) : Type 0 where
    player_fits : PlayerFit fs r e s.player
    task_fits : TaskFit s.task
    image_fits : ImageFit s.grey_image
    video_runs : s.video ≢ crashed
    edges_run : RunsBeside s.edges s.video
    greys_run : RunsBeside s.greys s.video

  -- The filters do not depend on where `video_task` is, while it is not past its end.
  still : (filter at at' : TaskPlace) → RunsBeside filter at → at ≢ ended → RunsBeside filter at'
  still filter at at' (inl run) alive = inl run
  still filter at at' (inr over) alive = absurd (alive over)

  -- Where only places change.
  moved :
      (s : PictureTasks fs e) (v d g : TaskPlace)
      → Intact s
      → v ≢ crashed
      → RunsBeside d v
      → RunsBeside g v
      → Intact (record s { video = v; edges = d; greys = g })
  moved s v d g h safe run run' = record {
    player_fits = h.player_fits;
    task_fits = h.task_fits;
    image_fits = h.image_fits;
    video_runs = safe;
    edges_run = run;
    greys_run = run';
  }

  video_to :
      (s : PictureTasks fs e) (v : TaskPlace)
      → Intact s
      → s.video ≢ ended
      → v ≢ crashed
      → Intact (record s { video = v })
  video_to s v h alive safe =
      moved s v s.edges s.greys h safe (still s.edges s.video v h.edges_run alive)
        (still s.greys s.video v h.greys_run alive)

  edges_to :
      (s : PictureTasks fs e) (d : TaskPlace)
      → Intact s
      → RunsBeside d s.video
      → Intact (record s { edges = d })
  edges_to s d h run = moved s s.video d s.greys h h.video_runs run h.greys_run

  greys_to :
      (s : PictureTasks fs e) (g : TaskPlace)
      → Intact s
      → RunsBeside g s.video
      → Intact (record s { greys = g })
  greys_to s g h run = moved s s.video s.edges g h h.video_runs h.edges_run run

  -- With another player.
  with_player :
      (s : PictureTasks fs e) (p : Player fs e)
      → PlayerFit fs r e p
      → Intact s
      → Intact (record s { player = p })
  with_player s p fits h = record {
    player_fits = fits;
    task_fits = h.task_fits;
    image_fits = h.image_fits;
    video_runs = h.video_runs;
    edges_run = h.edges_run;
    greys_run = h.greys_run;
  }

  -- Past a round, `video_task` is at its test again.
  back :
      (s : PictureTasks fs e) (p : Player fs e)
      → PlayerFit fs r e p
      → s.video ≡ working
      → Intact s
      → Intact (record s { video = testing; player = p })
  back s p fits at h =
      video_to (record s { player = p }) testing (with_player s p fits h)
        (λ over. absurd (ground arith)) (λ c. absurd (ground arith))

  play_keeps :
      (x : Outcome (Round fs e)) (s : PictureTasks fs e)
      → RoundFit fs r e x
      → s.video ≡ working
      → Intact s
      → Intact (after_round fs e x s)
  play_keeps fault s fits at h = absurd fits
  play_keeps (ok waits) s fits at h = absurd fits
  play_keeps (ok exits) s fits at h =
      moved s gone gone gone h (λ c. absurd (ground arith)) (inl (λ c. absurd (ground arith)))
        (inl (λ c. absurd (ground arith)))
  play_keeps (ok (replays p)) s fits at h = back s p fits at h
  play_keeps (ok (plays p)) s fits at h = back s p fits at h

  step_keeps : (s t : PictureTasks fs e) → Intact s → PictureStep fs e s t → Intact t
  step_keeps s t h (control keys word alive on) = record {
    player_fits = h.player_fits;
    task_fits = h.task_fits;
    image_fits = h.image_fits;
    video_runs = h.video_runs;
    edges_run = h.edges_run;
    greys_run = h.greys_run;
  }
  step_keeps s t h (enter at on shown) =
      video_to s working h (λ over. absurd (ground arith)) (λ c. absurd (ground arith))
  step_keeps s t h (wait at on shown) =
      video_to s waiting h (λ over. absurd (ground arith)) (λ c. absurd (ground arith))
  step_keeps s t h (leave at off) =
      moved s ended s.edges s.greys h (λ c. absurd (ground arith)) (inr refl) (inr refl)
  step_keeps s t h (wake at set) =
      video_to s working h (λ over. absurd (ground arith)) (λ c. absurd (ground arith))
  step_keeps s t h (play at) =
      play_keeps (frame_round fs e s.ctl s.player) s
        (frame_round-RoundFit fs r e s.ctl s.player h.player_fits) at h
  step_keeps s t h (test_on at alive on) = edges_to s waiting h (inl (λ c. absurd (ground arith)))
  step_keeps s t h (test_off at alive off) = edges_to s ended h (inl (λ c. absurd (ground arith)))
  step_keeps s t h (test_lost at lost) = edges_to s crashed h (inr lost)
  step_keeps s t h (start task at alive runs) = record {
    player_fits = h.player_fits;
    task_fits =
        subst (StartFit fs r e) runs
          (edge_start-StartFit fs r e s.player s.task h.player_fits h.task_fits);
    image_fits = h.image_fits;
    video_runs = h.video_runs;
    edges_run = inl (λ c. absurd (ground arith));
    greys_run = h.greys_run;
  }
  step_keeps s t h (start_faulty at alive runs) = absurd (
      subst (StartFit fs r e) runs
        (edge_start-StartFit fs r e s.player s.task h.player_fits h.task_fits))
  step_keeps s t h (start_lost at lost set) = edges_to s crashed h (inr lost)
  step_keeps s t h (finish p task at alive runs) =
      let (fits, fits') =
        subst (FinishFit fs r e) runs
          (edge_finish-FinishFit fs r e s.player s.task h.player_fits h.task_fits) in
      record {
        player_fits = fits;
        task_fits = fits';
        image_fits = h.image_fits;
        video_runs = h.video_runs;
        edges_run = inl (λ c. absurd (ground arith));
        greys_run = h.greys_run;
      }
  step_keeps s t h (finish_faulty at alive runs) = absurd (
      subst (FinishFit fs r e) runs
        (edge_finish-FinishFit fs r e s.player s.task h.player_fits h.task_fits))
  step_keeps s t h (finish_lost at lost) = edges_to s crashed h (inr lost)
  step_keeps s t h (grey_on at alive on) = greys_to s waiting h (inl (λ c. absurd (ground arith)))
  step_keeps s t h (grey_off at alive off) = greys_to s ended h (inl (λ c. absurd (ground arith)))
  step_keeps s t h (grey_lost at lost) = greys_to s crashed h (inr lost)
  step_keeps s t h (grey_wake at alive up) = greys_to s working h (inl (λ c. absurd (ground arith)))
  step_keeps s t h (grey_wake_lost at lost up) = greys_to s crashed h (inr lost)
  step_keeps s t h (show_grey p img at alive runs) =
      let (fits, fits') =
        subst (GreyFit fs r e) runs
          (grey_round-GreyFit fs r e s.player s.grey_image h.player_fits h.image_fits) in
      record {
        player_fits = fits;
        task_fits = h.task_fits;
        image_fits = fits';
        video_runs = h.video_runs;
        edges_run = h.edges_run;
        greys_run = inl (λ c. absurd (ground arith));
      }
  step_keeps s t h (show_grey_faulty at alive runs) = absurd (
      subst (GreyFit fs r e) runs
        (grey_round-GreyFit fs r e s.player s.grey_image h.player_fits h.image_fits))
  step_keeps s t h (show_grey_lost at lost) = greys_to s crashed h (inr lost)

  -- On a regular file of bytes, with memory for exactly a frame, and with buffers and a screen that have
  -- the room: whatever steps are taken from a state in which nothing has crashed, `video_task` never
  -- does what C leaves undefined, and each of the two filters does so only after `video_task` has ended;
  -- and the sizes stay.
  pub pictures_safe :
      (s t : PictureTasks fs e)
      → PlayerFit fs r e s.player
      → TaskFit s.task
      → ImageFit s.grey_image
      → s.video ≢ crashed
      → s.edges ≢ crashed
      → s.greys ≢ crashed
      → PictureReach fs e s t
      → (t.video ≢ crashed)
        × ((t.edges ≢ crashed) ⊎ (t.video ≡ ended))
        × ((t.greys ≢ crashed) ⊎ (t.video ≡ ended))
        × PlayerFit fs r e t.player
        × TaskFit t.task
        × ImageFit t.grey_image
  pictures_safe s t fits fits' fits'' safe safe' safe'' reach =
      let h = keeps t reach in
      (h.video_runs, h.edges_run, h.greys_run, h.player_fits, h.task_fits, h.image_fits)
    where
      keeps : (u : PictureTasks fs e) → PictureReach fs e s u → Intact u
      keeps u here = record {
        player_fits = fits;
        task_fits = fits';
        image_fits = fits'';
        video_runs = safe;
        edges_run = inl safe';
        greys_run = inl safe'';
      }
      keeps u (later before step) = step_keeps _ u (keeps _ before) step
