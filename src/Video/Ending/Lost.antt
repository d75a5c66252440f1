-- ===== src/Video/Ending/Lost.antt =====
-- An edge filter that is still at work as `video_task` of video_setup.c ends.
use ptr24_lab.Prelude.{
  ℕ, ◌≤◌, ◌+◌, ◌≡◌, ◌≢◌, ◌⊎◌, inl, inr, refl, sym, ◌∙◌, true, false, ok, List, length, take, drop,
  IsBytes, arith,
}
use std.Path.{subst}
use ptr24_lab.Control.Events.{Events, IsGroup}
use ptr24_lab.Control.Task.{CtlData, apply_inputs}
use ptr24_lab.Control.Laws.{Shows, switch_up, apply_inputs-running}
use ptr24_lab.Image.Grayscale.{Img1D}
use ptr24_lab.Wav.Files.{Files, IsRegular, IsPrompt}
use ptr24_lab.Video.Filters.{video_resolution, video_image, EdgeTask}
use ptr24_lab.Video.Play.{Player, plays, video_round, convolution_running}
use ptr24_lab.Video.Halves.{take-GreyTaken}
use ptr24_lab.Video.Signals.{length-frame, signalled}
use ptr24_lab.Video.Overrun.{started}
use ptr24_lab.Video.Ending.Stranded.{filters_stranded}
use ptr24_lab.Video.Ending.{
  testing, waiting, working, ended, crashed, PictureTasks, frame_round, after_round, PictureStep,
  control, enter, leave, play, test_on, start, finish_lost, PictureReach, here, later,
}

module _ (fs : Files) (e : Events) where
  round-frame_round :
      (ctl : CtlData e) (p : Player fs e)
      → ctl.video_on ≡ true
      → video_round fs e ctl p ≡ frame_round fs e ctl p
  unfolding video_round frame_round
  round-frame_round ctl p on = rw on refl

  played :
      (s : PictureTasks fs e) (q : Player fs e)
      → s.video ≡ working
      → frame_round fs e s.ctl s.player ≡ ok (plays q)
      → PictureStep fs e s (record s { video = testing; player = q })
  played s q at runs = subst (λ x. PictureStep fs e s (after_round fs e x s)) runs (play at)

-- A turn of the two tasks up to the middle of a round of the filter.
edges_at_work :
    (fs : Files) (r : IsRegular fs) (prompt : IsPrompt fs r) (e : Events) (group : IsGroup e)
    (word : ℕ) (ctl : CtlData e) (p : Player fs e) (conv grey shown : List ℕ) (image : Img1D)
    → ctl.running ≡ true
    → Shows e word ctl
    → switch_up 1 word ≡ true
    → switch_up 9 word ≡ true
    → length p.frame ≡ video_resolution
    → video_resolution ≤ length p.screen
    → r.offset p.video_file + video_resolution ≤ length (r.content p.video_file)
    → IsBytes (take video_resolution (drop (r.offset p.video_file) (r.content p.video_file)))
    → 76800 ≤ length grey
    → IsBytes grey
    → (q : Player fs e) × (t : EdgeTask) × PictureReach fs e
        (record {
          ctl = ctl;
          video = testing;
          player = p;
          edges = testing;
          task = record { conv_data = conv; grey_8 = grey; result = video_image shown };
          greys = testing;
          grey_image = image;
        })
        (record {
          ctl = ctl;
          video = testing;
          player = q;
          edges = working;
          task = t;
          greys = testing;
          grey_image = image;
        })
edges_at_work fs r prompt e group word ctl p conv grey shown image on shows up edges whole room
      ahead bytes room_g grey_bytes =
    let (f, runs, _, _) = signalled fs e r prompt word ctl p shows up edges whole room ahead in
    let frame = take video_resolution (drop (r.offset p.video_file) (r.content p.video_file)) in
    let q : Player fs e = record p {
      video_file = f;
      frame = frame;
      video_task_event = e.signal p.video_task_event convolution_running;
    } in
    let g =
      take-GreyTaken frame grey
        (omega (
          arith,
          length-frame video_resolution (r.offset p.video_file) (r.content p.video_file) ahead,
        ))
        room_g bytes grey_bytes in
    let task : EdgeTask = record { conv_data = conv; grey_8 = grey; result = video_image shown } in
    let t : EdgeTask = record { conv_data = conv; grey_8 = g.grey'; result = video_image shown } in
    let asleep : PictureTasks fs e = record {
      ctl = ctl;
      video = testing;
      player = p;
      edges = waiting;
      task = task;
      greys = testing;
      grey_image = image;
    } in
    let playing : PictureTasks fs e = record asleep { video = working } in
    let shown_to : PictureTasks fs e = record asleep { player = q } in
    let video_on : ctl.video_on ≡ true = shows.video ∙ up in
    let play_step : PictureStep fs e playing shown_to =
      played fs e playing q refl (sym (round-frame_round fs e ctl p video_on) ∙ runs) in
    let start_step : PictureStep fs e shown_to (record shown_to { edges = working; task = t }) =
      start t refl (λ h. absurd (ground arith))
        (started fs e q conv grey shown g
          (group.set_self p.video_task_event convolution_running (inr (inl refl)))) in
    let first : PictureReach fs e (record asleep { edges = testing }) playing =
      later (later here (test_on refl (λ h. absurd (ground arith)) on)) (enter refl on video_on) in
    (q, t, later (later first play_step) start_step)

-- With switches 1 and 9 up, a whole frame of bytes ahead in a regular file on which nothing fails, and
-- buffers that have the room: if `video_task` plays a frame, the edge filter starts on it, a key ends the
-- program and `video_task` ends, then the filter is in the middle of its round; from there it never comes
-- to its end, and its next step is a crash.
pub edges_outlive_video :
    (fs : Files) (r : IsRegular fs) (prompt : IsPrompt fs r) (e : Events) (group : IsGroup e)
    (keys word : ℕ) (ctl : CtlData e) (p : Player fs e) (conv grey shown : List ℕ) (image : Img1D)
    → ctl.running ≡ true
    → keys ≢ 0
    → Shows e word ctl
    → switch_up 1 word ≡ true
    → switch_up 9 word ≡ true
    → length p.frame ≡ video_resolution
    → video_resolution ≤ length p.screen
    → r.offset p.video_file + video_resolution ≤ length (r.content p.video_file)
    → IsBytes (take video_resolution (drop (r.offset p.video_file) (r.content p.video_file)))
    → 76800 ≤ length grey
    → IsBytes grey
    → (s t : PictureTasks fs e) × PictureReach fs e
        (record {
          ctl = ctl;
          video = testing;
          player = p;
          edges = testing;
          task = record { conv_data = conv; grey_8 = grey; result = video_image shown };
          greys = testing;
          grey_image = image;
        })
        s
      × (s.ctl.running ≡ false)
      × (s.video ≡ ended)
      × (s.edges ≡ working)
      × ((u : PictureTasks fs e)
          → PictureReach fs e s u
          → (u.edges ≡ working) ⊎ (u.edges ≡ crashed))
      × PictureStep fs e s t
      × (t.edges ≡ crashed)
edges_outlive_video fs r prompt e group keys word ctl p conv grey shown image on down shows up edges
      whole room ahead bytes room_g grey_bytes =
    let (q, task, reach) =
      edges_at_work fs r prompt e group word ctl p conv grey shown image on shows up edges whole
        room ahead bytes room_g grey_bytes in
    let ctl' = apply_inputs e keys word ctl in
    let s : PictureTasks fs e = record {
      ctl = ctl';
      video = ended;
      player = q;
      edges = working;
      task = task;
      greys = testing;
      grey_image = image;
    } in
    let stopped : ctl'.running ≡ false =
      ground (arith, apply_inputs-running e group keys word ctl) in
    (
      s,
      record s { edges = crashed },
      later (later reach (control keys word (λ h. absurd (ground arith)) on)) (leave refl stopped),
      stopped,
      refl,
      refl,
      λ u reach'. (filters_stranded fs e s u refl reach').1,
      finish_lost refl refl,
      refl,
    )
