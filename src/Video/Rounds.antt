-- ===== src/Video/Rounds.antt =====
-- What a round of `video_task` does with the frames of its file and with the switches.
use ptr24_lab.Prelude.{
  ℕ, ◌+◌, ◌≡◌, ◌≤◌, ◌∙◌, ap, refl, Bool, Bool-cases, inl, inr, true, List, [], ◌∷◌, ◌++◌, ok, leb,
  le→leb, if◌then◌else◌, arith, length, take, drop, length-take, length-drop, drop_past,
}
use mathlib.Core.List.{append-nil}
use ptr24_lab.Control.Events.{Events, greyscale_activation, convolution_activation}
use ptr24_lab.Control.Task.{CtlData}
use ptr24_lab.Control.Laws.{Shows, switch_up}
use ptr24_lab.Wav.Files.{Files, IsRegular, IsPrompt, got, overwrite}
use ptr24_lab.Video.Filters.{video_resolution}
use ptr24_lab.Video.Halves.{memcpy_lem}
use ptr24_lab.Video.Play.{
  Player, replays, plays, choose, after_frame, video_round, greyscale_running, convolution_running,
}

module _ (fs : Files) (e : Events) where
  -- The player after a frame, by what the switches ask for.
  abbrev pub treated : Bool → Bool → Player fs e → Player fs e
  treated edges grey p =
      if edges
      then record p { video_task_event = e.signal p.video_task_event convolution_running }
      else if grey
      then record p { video_task_event = e.signal p.video_task_event greyscale_running }
      else record p { screen = take video_resolution p.frame ++ drop video_resolution p.screen }

  pub choose_lem :
      (g : e.Group) (p : Player fs e)
      → video_resolution ≤ length p.frame
      → video_resolution ≤ length p.screen
      → choose fs e g p
        ≡ ok (
            plays (treated (e.is_set g convolution_activation) (e.is_set g greyscale_activation) p))
  unfolding choose
  choose_lem g p full room =
      rw (memcpy_lem p.screen p.frame video_resolution full room)
        (elim (Bool-cases (e.is_set g convolution_activation)) [
          | inl edges ↦ rw edges refl
          | inr no_edges ↦ elim (Bool-cases (e.is_set g greyscale_activation)) [
            | inl grey ↦ rw (no_edges, grey) refl
            | inr no_grey ↦ rw (no_edges, no_grey) refl
          ]
        ])

  after_frame_lem :
      (bs : List ℕ) (g : e.Group) (p : Player fs e)
      → length bs ≡ video_resolution
      → length p.frame ≡ video_resolution
      → video_resolution ≤ length p.screen
      → after_frame fs e (got bs) g p
        ≡ ok (
            plays (
              treated
                (e.is_set g convolution_activation)
                (e.is_set g greyscale_activation)
                (record p { frame = bs })))
  unfolding after_frame
  after_frame_lem [] g p len full room = absurd (omega arith)
  after_frame_lem (b ∷ bs) g p len full room =
      let fits : leb (length (b ∷ bs)) (length p.frame) ≡ true = le→leb _ _ (omega arith) in
      let rest : drop (0 + length (b ∷ bs)) p.frame ≡ [] = drop_past _ p.frame (omega arith) in
      let whole : overwrite p.frame 0 (b ∷ bs) ≡ b ∷ bs =
        ap (λ ys. (b ∷ bs) ++ ys) rest ∙ append-nil (b ∷ bs) in
      simp (fits, whole) (choose_lem g (record p { frame = b ∷ bs }) (omega arith) room)

module _ (fs : Files) (r : IsRegular fs) (prompt : IsPrompt fs r) (e : Events) where
  -- With switch 1 up, the shared state showing the switches, memory for exactly one frame and a
  -- screen that holds it, and a whole frame ahead in a regular file on which nothing fails, a
  -- round of `video_task` puts that frame into memory and then, by the switches, wakes the edge
  -- filter if switch 9 is up, else the grey filter if switch 8 is up, else copies the frame to the
  -- screen; it does no more, and the file stands behind the frame.
  pub video_round_lem :
      (word : ℕ) (ctl : CtlData e) (p : Player fs e)
      → Shows e word ctl
      → switch_up 1 word ≡ true
      → length p.frame ≡ video_resolution
      → video_resolution ≤ length p.screen
      → r.offset p.video_file + video_resolution ≤ length (r.content p.video_file)
      → (f : fs.File) × (video_round fs e ctl p
          ≡ ok (
              plays (
                treated fs e (switch_up 9 word) (switch_up 8 word) (record p {
                  video_file = f;
                  frame =
                      take video_resolution (drop (r.offset p.video_file) (r.content p.video_file));
                }))))
        × (r.content f ≡ r.content p.video_file)
        × (r.offset f ≡ r.offset p.video_file + video_resolution)
  unfolding video_round
  video_round_lem word ctl p shows on full room ahead =
      let bs = take video_resolution (drop (r.offset p.video_file) (r.content p.video_file)) in
      let reads : (fs.read p.video_file video_resolution).0 ≡ got bs =
        prompt.read_all p.video_file video_resolution in
      let len : length bs ≡ video_resolution = omega (
        arith,
        length-take video_resolution (drop (r.offset p.video_file) (r.content p.video_file)),
        length-drop (r.offset p.video_file) (r.content p.video_file),
      ) in
      let video_on : ctl.video_on ≡ true = shows.video ∙ on in
      let file' = (fs.read p.video_file video_resolution).1 in
      let q : Player fs e = record p { video_file = file'; frame = bs } in
      (
        file',
        simp (reads, video_on)
            (after_frame_lem fs e bs ctl.control_event (record p { video_file = file' }) len full
                room
              ∙ ap
                  (λ a.
                    ok (plays (treated fs e a (e.is_set ctl.control_event greyscale_activation) q)))
                  shows.convolution_flag
              ∙ ap (λ a. ok (plays (treated fs e (switch_up 9 word) a q))) shows.greyscale_flag),
        r.content-read p.video_file video_resolution,
        omega (arith, len, (r.read_got p.video_file video_resolution bs reads).2),
      )

  -- With the video on, at the end of a regular file on which nothing fails, a round shows nothing,
  -- and the file starts again.
  video_round_replays :
      (ctl : CtlData e) (p : Player fs e)
      → ctl.video_on ≡ true
      → length (r.content p.video_file) ≤ r.offset p.video_file
      → (f : fs.File) × (video_round fs e ctl p ≡ ok (replays (record p { video_file = f })))
        × (r.content f ≡ r.content p.video_file)
        × (r.offset f ≡ 0)
  unfolding video_round after_frame
  video_round_replays ctl p on past =
      let file' = (fs.read p.video_file video_resolution).1 in
      let none_left : drop (r.offset p.video_file) (r.content p.video_file) ≡ [] =
        drop_past _ _ past in
      let reads : (fs.read p.video_file video_resolution).0 ≡ got [] =
        prompt.read_all p.video_file video_resolution ∙ rw none_left refl in
      (
        fs.seek file' 0,
        simp (reads, on) refl,
        r.content-seek file' 0 ∙ r.content-read p.video_file video_resolution,
        r.offset-seek file' 0,
      )
