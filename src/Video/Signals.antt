-- ===== src/Video/Signals.antt =====
-- Rounds of `video_task` of video_setup.c that wake the edge filter.
use ptr24_lab.Prelude.{
  ℕ, ◌+◌, ◌*◌, ◌≤◌, ◌≡◌, refl, ap, ◌∙◌, true, ok, List, length, take, drop, length-take,
  length-drop, arith,
}
use ptr24_lab.Control.Events.{Events}
use ptr24_lab.Control.Task.{CtlData}
use ptr24_lab.Control.Laws.{Shows, switch_up}
use ptr24_lab.Wav.Files.{Files, IsRegular, IsPrompt}
use ptr24_lab.Video.Filters.{video_resolution}
use ptr24_lab.Video.Play.{Player, plays, video_round, convolution_running}
use ptr24_lab.Video.Rounds.{treated, video_round_lem}

-- A whole frame of a film.
pub length-frame :
    (n at : ℕ) (film : List ℕ) → at + n ≤ length film → length (take n (drop at film)) ≡ n
length-frame n at film h = omega (arith, length-take n (drop at film), length-drop at film, h)

module _ (fs : Files) (e : Events) where
  module _ (r : IsRegular fs) (prompt : IsPrompt fs r) where
    -- A round of `video_task` with switch 9 up.
    pub signalled :
        (word : ℕ) (ctl : CtlData e) (p : Player fs e)
        → Shows e word ctl
        → switch_up 1 word ≡ true
        → switch_up 9 word ≡ true
        → length p.frame ≡ video_resolution
        → video_resolution ≤ length p.screen
        → r.offset p.video_file + video_resolution ≤ length (r.content p.video_file)
        → (f : fs.File) × (video_round fs e ctl p
            ≡ ok (
                plays (record p {
                  video_file = f;
                  frame =
                      take video_resolution (drop (r.offset p.video_file) (r.content p.video_file));
                  video_task_event = e.signal p.video_task_event convolution_running;
                })))
          × (r.content f ≡ r.content p.video_file)
          × (r.offset f ≡ r.offset p.video_file + video_resolution)
    signalled word ctl p shows on edges whole room ahead =
        let (f, runs, content, offset) =
          video_round_lem fs r prompt e word ctl p shows on whole room ahead in
        (
          f,
          runs
              ∙ ap
                  (λ a. ok (
                    plays (
                      treated fs e a (switch_up 8 word) (record p {
                        video_file = f;
                        frame =
                            take video_resolution
                              (drop (r.offset p.video_file) (r.content p.video_file));
                      }))))
                  edges,
          content,
          offset,
        )

    -- The player after a round that woke the edge filter.
    abbrev pub with_frame : Player fs e → fs.File → List ℕ → Player fs e
    with_frame p f frame = record p {
      video_file = f;
      frame = frame;
      video_task_event = e.signal p.video_task_event convolution_running;
    }

    -- Two such rounds, one after the other.
    pub two_signalled :
        (word : ℕ) (ctl : CtlData e) (p : Player fs e)
        → Shows e word ctl
        → switch_up 1 word ≡ true
        → switch_up 9 word ≡ true
        → length p.frame ≡ video_resolution
        → video_resolution ≤ length p.screen
        → r.offset p.video_file + 2 * video_resolution ≤ length (r.content p.video_file)
        → (f f' : fs.File) × (video_round fs e ctl p
            ≡ ok (
                plays (
                  with_frame p f (
                    take video_resolution
                      (drop (r.offset p.video_file) (r.content p.video_file))))))
          × (video_round fs e ctl (
                with_frame p f
                  (take video_resolution (drop (r.offset p.video_file) (r.content p.video_file))))
              ≡ ok (
                  plays (
                    with_frame
                      (with_frame p f (
                        take video_resolution
                          (drop (r.offset p.video_file) (r.content p.video_file))))
                      f'
                      (take video_resolution (
                        drop
                          (r.offset p.video_file + video_resolution)
                          (r.content p.video_file))))))
    two_signalled word ctl p shows on edges whole room ahead =
        let at = r.offset p.video_file in
        let film = r.content p.video_file in
        let frame = take video_resolution (drop at film) in
        let (f, runs, content, offset) =
          signalled word ctl p shows on edges whole room (omega (arith, ahead)) in
        let p₁ = with_frame p f frame in
        let (f', runs', _, _) =
          signalled word ctl p₁ shows on edges
            (length-frame video_resolution at film (omega (arith, ahead))) room
            (omega (arith, offset, ap length content, ahead)) in
        let second_as : take video_resolution (drop (r.offset f) (r.content f))
            ≡ take video_resolution (drop (at + video_resolution) film) =
          rw (offset, content) refl in
        (f, f', runs, runs' ∙ ap (λ b. ok (plays (with_frame p₁ f' b))) second_as)
