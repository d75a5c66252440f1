-- ===== src/Video/Overrun.antt =====
-- The edge filter takes longer than a frame: `video_task` reads the next frame and signals it while the
-- filter still works on the one before, and the filter then clears the flag for both.
use ptr24_lab.Prelude.{
  ℕ, ◌+◌, ◌*◌, ◌<◌, ◌≤◌, ◌≡◌, refl, inl, inr, true, false, Option, some, none, Outcome, fault,
  Bool-cases, ok, ◌>>=◌, List, length, take, drop, byte_at, IsBytes, arith,
}
use ptr24_lab.Control.Events.{Events, IsGroup}
use ptr24_lab.Control.Task.{CtlData}
use ptr24_lab.Control.Laws.{Shows, switch_up}
use ptr24_lab.Image.Grayscale.{rgba_to_grayscale8}
use ptr24_lab.Image.Grayscale.Mean.{mean_at}
use ptr24_lab.Image.Convolution.Spec.{sobel}
use ptr24_lab.Wav.Files.{Files, IsRegular, IsPrompt}
use ptr24_lab.Video.Filters.{
  width, height, video_resolution, video_image, EdgeTask, show_edges, convolution_round,
}
use ptr24_lab.Video.Play.{Player, plays, video_round, convolution_running}
use ptr24_lab.Video.Halves.{GreyTaken, take-GreyTaken, EdgesPut, show-EdgesPut}
use ptr24_lab.Video.Signals.{length-frame, with_frame, two_signalled}
use ptr24_lab.Video.Edges.{edge_turn, edge_start, edge_finish}

module _ (fs : Files) (e : Events) where
  -- Whether there was something to do decides how a turn goes on.
  abbrev pub finish_if : Player fs e → EdgeTask → Option EdgeTask → Outcome (Player fs e × EdgeTask)
  finish_if p t none = ok (p, t)
  finish_if p t (some t') = edge_finish fs e p t'

  -- A turn with nothing in between is its two halves.
  halves :
      (p : Player fs e) (t : EdgeTask) (r : Outcome (List ℕ))
      → (r >>= (λ grey. show_edges (record t { grey_8 = grey }) p.screen) >>= λ (t', screen'). ok (
        record p {
          screen = screen';
          video_task_event = e.clear p.video_task_event convolution_running;
        },
        t',
      ))
        ≡ (r >>= (λ grey. ok (some (record t { grey_8 = grey }))) >>= finish_if p t)
  unfolding edge_finish
  halves p t (ok grey) = refl
  halves p t fault = refl

  edge_turn_halves :
      (p : Player fs e) (t : EdgeTask)
      → edge_turn fs e p t ≡ (edge_start fs e p t >>= finish_if p t)
  unfolding edge_turn edge_start convolution_round
  edge_turn_halves p t = elim (Bool-cases (e.is_set p.video_task_event convolution_running)) [
    | inl woken ↦ rw woken (halves p t (rgba_to_grayscale8 (video_image p.frame) t.grey_8))
    | inr off ↦ rw off refl
  ]

  pub started :
      (p : Player fs e) (conv grey shown : List ℕ) (g : GreyTaken p.frame grey)
      → e.is_set p.video_task_event convolution_running ≡ true
      → edge_start fs e p (record { conv_data = conv; grey_8 = grey; result = video_image shown })
        ≡ ok (some (record { conv_data = conv; grey_8 = g.grey'; result = video_image shown }))
  unfolding edge_start
  started p conv grey shown g woken = rw (woken, g.runs) refl

  pub finished :
      (p : Player fs e) (conv grey shown : List ℕ) (s : EdgesPut conv grey shown p.screen)
      → edge_finish fs e p (record { conv_data = conv; grey_8 = grey; result = video_image shown })
        ≡ ok (
          record p {
            screen = s.screen';
            video_task_event = e.clear p.video_task_event convolution_running;
          },
          record { conv_data = s.conv'; grey_8 = grey; result = video_image s.shown' },
        )
  unfolding edge_finish
  finished p conv grey shown s = rw s.runs refl

  pub asleep :
      (p : Player fs e) (t : EdgeTask)
      → e.is_set p.video_task_event convolution_running ≡ false
      → edge_start fs e p t ≡ ok none
  unfolding edge_start
  asleep p t off = rw off refl

-- With switches 1 and 9 up, two whole frames of bytes ahead in a regular file on which nothing fails,
-- and buffers that have the room: if `video_task` plays a frame, the edge filter starts on it,
-- `video_task` plays the next frame, and the filter finishes, then the screen has the edges of the first
-- frame, the second one is in memory, and the filter is not woken for it: its flag is down.
pub second_frame_lost :
    (fs : Files) (r : IsRegular fs) (prompt : IsPrompt fs r) (e : Events) (group : IsGroup e)
    (word : ℕ) (ctl : CtlData e) (p : Player fs e) (conv grey shown : List ℕ)
    → Shows e word ctl
    → switch_up 1 word ≡ true
    → switch_up 9 word ≡ true
    → length p.frame ≡ video_resolution
    → video_resolution ≤ length p.screen
    → r.offset p.video_file + 2 * video_resolution ≤ length (r.content p.video_file)
    → IsBytes (take video_resolution (drop (r.offset p.video_file) (r.content p.video_file)))
    → 76800 ≤ length conv
    → 76800 ≤ length grey
    → IsBytes grey
    → video_resolution ≤ length shown
    → (p₁ p₂ p₃ : Player fs e) × (t₁ t₃ : EdgeTask) × (video_round fs e ctl p ≡ ok (plays p₁))
      × (edge_start fs e p₁ (record { conv_data = conv; grey_8 = grey; result = video_image shown })
          ≡ ok (some t₁))
      × (video_round fs e ctl p₁ ≡ ok (plays p₂))
      × (edge_finish fs e p₂ t₁ ≡ ok (p₃, t₃))
      × ((j : ℕ)
          → j < 76800
          → byte_at t₁.grey_8 j
            ≡ mean_at
                (take video_resolution (drop (r.offset p.video_file) (r.content p.video_file)))
                (j * 4))
      × ((x y c : ℕ)
          → x < width
          → y < height
          → c < 3
          → byte_at p₃.screen ((y * width + x) * 4 + c) ≡ sobel t₁.grey_8 width height x y)
      × (p₃.frame
          ≡ take video_resolution
              (drop (r.offset p.video_file + video_resolution) (r.content p.video_file)))
      × (edge_start fs e p₃ t₃ ≡ ok none)
second_frame_lost fs r prompt e group word ctl p conv grey shown shows on edges whole room ahead
      bytes room_c room_g grey_bytes room_s =
    let at = r.offset p.video_file in
    let frame = take video_resolution (drop at (r.content p.video_file)) in
    let (f, f', runs, runs') =
      two_signalled fs e r prompt word ctl p shows on edges whole room ahead in
    let p₁ = with_frame fs e r prompt p f frame in
    let p₂ =
      with_frame fs e r prompt p₁ f'
        (take video_resolution (drop (at + video_resolution) (r.content p.video_file))) in
    let g =
      take-GreyTaken frame grey
        (omega (arith, length-frame video_resolution at (r.content p.video_file), ahead)) room_g
        bytes grey_bytes in
    let s = show-EdgesPut conv g.grey' shown p.screen room_c g.room_grey room_s room g.grey_bytes in
    let flag = inr (inl refl) in
    (
      p₁,
      p₂,
      record p₂ {
        screen = s.screen';
        video_task_event = e.clear p₂.video_task_event convolution_running;
      },
      record { conv_data = conv; grey_8 = g.grey'; result = video_image shown },
      record { conv_data = s.conv'; grey_8 = g.grey'; result = video_image s.shown' },
      runs,
      started fs e p₁ conv grey shown g
          (group.set_self p.video_task_event convolution_running flag),
      runs',
      finished fs e p₂ conv g.grey' shown s,
      g.mean,
      s.edges,
      refl,
      asleep fs e _ _ (group.clear_self p₂.video_task_event convolution_running flag),
    )
