-- ===== src/Video/Edges.antt =====
-- From the file to the edges on the screen: a round of `video_task`, and then `convolution_task`, which it
-- wakes.
use ptr24_lab.Prelude.{
  ℕ, ◌+◌, ◌*◌, ◌<◌, ◌≤◌, ◌≡◌, refl, ap, ◌∙◌, inl, inr, true, false, Option, some, none, Outcome, ok,
  ◌>>=◌, List, length, take, drop, length-take, length-drop, byte_at, IsBytes, if◌then◌else◌, arith,
}
use ptr24_lab.Control.Events.{Events, IsGroup}
use ptr24_lab.Control.Task.{CtlData}
use ptr24_lab.Control.Laws.{Shows, switch_up}
use ptr24_lab.Image.Grayscale.{Img1D, rgba_to_grayscale8}
use ptr24_lab.Image.Grayscale.Mean.{mean_at}
use ptr24_lab.Image.Convolution.Spec.{sobel}
use ptr24_lab.Wav.Files.{Files, IsRegular, IsPrompt}
use ptr24_lab.Video.Filters.{
  width, height, video_resolution, video_image, EdgeTask, show_edges, convolution_round,
  greyscale_round,
}
use ptr24_lab.Video.Play.{Player, plays, video_round, greyscale_running, convolution_running}
use ptr24_lab.Video.Rounds.{treated, video_round_lem}
use ptr24_lab.Video.Shown.{EdgesShown, round-EdgesShown}

-- The flag by which `greyscale_task` says that it is done; nothing waits for it.
abbrev pub greyscale_stop : ℕ
greyscale_stop = 4

module _ (fs : Files) (e : Events) where
  -- A turn of `convolution_task`, on the frame and the screen that it shares with `video_task`: once
  -- woken, one round, and then its flag is cleared.
  unfoldable pub edge_turn : Player fs e → EdgeTask → Outcome (Player fs e × EdgeTask)
  unfolding convolution_round
  edge_turn p t =
      if e.is_set p.video_task_event convolution_running
      then (do
        (t', screen') ← convolution_round (video_image p.frame) t p.screen
        ok (
          record p {
            screen = screen';
            video_task_event = e.clear p.video_task_event convolution_running;
          },
          t',
        ))
      else ok (p, t)

  -- The two halves of such a turn, between which `video_task` may go on: what was read of the frame, if
  -- the task was woken; and the edges on the screen, and the flag cleared.
  unfoldable pub edge_start : Player fs e → EdgeTask → Outcome (Option EdgeTask)
  edge_start p t =
      if e.is_set p.video_task_event convolution_running
      then (do
        grey ← rgba_to_grayscale8 (video_image p.frame) t.grey_8
        ok (some (record t { grey_8 = grey })))
      else ok none

  unfoldable pub edge_finish : Player fs e → EdgeTask → Outcome (Player fs e × EdgeTask)
  unfolding show_edges
  edge_finish p t = do
    (t', screen') ← show_edges t p.screen
    ok (
      record p {
        screen = screen';
        video_task_event = e.clear p.video_task_event convolution_running;
      },
      t',
    )

  -- A round of `greyscale_task` that was woken, after which it also says that it is done; and a turn.
  unfoldable pub grey_round : Player fs e → Img1D → Outcome (Player fs e × Img1D)
  unfolding greyscale_round
  grey_round p t = do
    (t', screen') ← greyscale_round (video_image p.frame) t p.screen
    ok (
      record p {
        screen = screen';
        video_task_event = e.signal (e.clear p.video_task_event greyscale_running) greyscale_stop;
      },
      t',
    )

  unfoldable pub grey_turn : Player fs e → Img1D → Outcome (Player fs e × Img1D)
  unfolding grey_round
  grey_turn p t =
      if e.is_set p.video_task_event greyscale_running then grey_round p t else ok (p, t)

  -- A turn that was woken.
  edge_turn_woken :
      (p : Player fs e) (t : EdgeTask) (s : EdgesShown p.frame t p.screen)
      → e.is_set p.video_task_event convolution_running ≡ true
      → edge_turn p t
        ≡ ok (
          record p {
            screen = s.screen';
            video_task_event = e.clear p.video_task_event convolution_running;
          },
          record { conv_data = s.conv'; grey_8 = s.grey'; result = video_image s.shown' },
        )
  unfolding edge_turn
  edge_turn_woken p t s woken = rw (woken, s.runs) refl

-- With switches 1 and 9 up, the shared state showing the switches, and a whole frame of bytes ahead in a
-- regular file on which nothing fails, a round of `video_task` and then a turn of `convolution_task`
-- return, if all buffers have just the room; the first three components of each pixel of the screen are
-- then what the edge filter gives for the means of the colours of that frame, and the filter waits
-- again.
pub film_edges :
    (fs : Files) (r : IsRegular fs) (prompt : IsPrompt fs r) (e : Events) (group : IsGroup e)
    (word : ℕ) (ctl : CtlData e) (p : Player fs e) (conv grey shown : List ℕ)
    → Shows e word ctl
    → switch_up 1 word ≡ true
    → switch_up 9 word ≡ true
    → length p.frame ≡ video_resolution
    → video_resolution ≤ length p.screen
    → r.offset p.video_file + video_resolution ≤ length (r.content p.video_file)
    → IsBytes (take video_resolution (drop (r.offset p.video_file) (r.content p.video_file)))
    → 76800 ≤ length conv
    → 76800 ≤ length grey
    → IsBytes grey
    → video_resolution ≤ length shown
    → (q q' : Player fs e) × (t' : EdgeTask) × (video_round fs e ctl p ≡ ok (plays q))
      × (edge_turn fs e q (record { conv_data = conv; grey_8 = grey; result = video_image shown })
          ≡ ok (q', t'))
      × (e.is_set q'.video_task_event convolution_running ≡ false)
      × ((j : ℕ)
          → j < 76800
          → byte_at t'.grey_8 j
            ≡ mean_at
                (take video_resolution (drop (r.offset p.video_file) (r.content p.video_file)))
                (j * 4))
      × ((x y c : ℕ)
          → x < width
          → y < height
          → c < 3
          → byte_at q'.screen ((y * width + x) * 4 + c) ≡ sobel t'.grey_8 width height x y)
film_edges fs r prompt e group word ctl p conv grey shown shows on edges whole room ahead bytes
      room_conv room_grey grey_bytes room_shown =
    let frame = take video_resolution (drop (r.offset p.video_file) (r.content p.video_file)) in
    let (f, runs, _, _) = video_round_lem fs r prompt e word ctl p shows on whole room ahead in
    let q : Player fs e = record p {
      video_file = f;
      frame = frame;
      video_task_event = e.signal p.video_task_event convolution_running;
    } in
    let len : length frame ≡ video_resolution = omega (
      arith,
      length-take video_resolution (drop (r.offset p.video_file) (r.content p.video_file)),
      length-drop (r.offset p.video_file) (r.content p.video_file),
      ahead,
    ) in
    let s =
      round-EdgesShown frame conv grey shown p.screen (omega (arith, len)) room_conv room_grey
        room_shown room bytes grey_bytes in
    (
      q,
      record q {
        screen = s.screen';
        video_task_event = e.clear q.video_task_event convolution_running;
      },
      record { conv_data = s.conv'; grey_8 = s.grey'; result = video_image s.shown' },
      runs
          ∙ ap
              (λ a. ok (
                plays
                  (treated fs e a (switch_up 8 word) (record p { video_file = f; frame = frame }))))
              edges,
      edge_turn_woken fs e q _ s
          (group.set_self p.video_task_event convolution_running (inr (inl refl))),
      group.clear_self q.video_task_event convolution_running (inr (inl refl)),
      s.mean,
      s.edges,
    )
