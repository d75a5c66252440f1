-- ===== src/Video/Shown.antt =====
-- What the filter tasks show, from the frame to the screen.
use ptr24_lab.Prelude.{
  length-append, length-take, length-drop, ap, ◌>>=◌, ℕ, ◌+◌, ◌*◌, ◌<◌, ◌≤◌, ◌≡◌, refl, List, ◌++◌,
  ok, arith, length, take, drop, byte_at, IsBytes, ◌∙◌,
}
use ptr24_lab.Image.Grayscale.Mean.{mean_at}
use ptr24_lab.Image.Grayscale.Grey32.{rgba_to_grayscale32_lem, grey32_at-mean}
use ptr24_lab.Image.Convolution.Spec.{sobel}
use ptr24_lab.Video.Halves.{byte_at-take, memcpy_lem, take-GreyTaken, show-EdgesPut}
use ptr24_lab.Video.Filters.{
  width, height, video_resolution, video_image, EdgeTask, show_edges, convolution_round,
  greyscale_round,
}

-- What a round leaves, with buffers that have the room for the next one.
pub record EdgesShown (frame : List ℕ) (t : EdgeTask) (screen : List ℕ) : Type 0 where
  pub conv' : List ℕ
  pub grey' : List ℕ
  pub shown' : List ℕ
  pub screen' : List ℕ
  pub runs :
      convolution_round (video_image frame) t screen
      ≡ ok (record { conv_data = conv'; grey_8 = grey'; result = video_image shown' }, screen')
  pub room_conv : 76800 ≤ length conv'
  pub room_grey : 76800 ≤ length grey'
  pub room_shown : video_resolution ≤ length shown'
  pub room : video_resolution ≤ length screen'
  pub grey_bytes : IsBytes grey'
  pub mean : (j : ℕ) → j < 76800 → byte_at grey' j ≡ mean_at frame (j * 4)
  pub edges :
      (x y c : ℕ)
      → x < width
      → y < height
      → c < 3
      → byte_at screen' ((y * width + x) * 4 + c) ≡ sobel grey' width height x y

pub round-EdgesShown :
    (frame conv grey shown screen : List ℕ)
    → video_resolution ≤ length frame
    → 76800 ≤ length conv
    → 76800 ≤ length grey
    → video_resolution ≤ length shown
    → video_resolution ≤ length screen
    → IsBytes frame
    → IsBytes grey
    → EdgesShown frame
        (record { conv_data = conv; grey_8 = grey; result = video_image shown })
        screen
unfolding convolution_round
round-EdgesShown frame conv grey shown screen fits room_c room_g room_s room frame_bytes
      grey_bytes =
    let g = take-GreyTaken frame grey fits room_g frame_bytes grey_bytes in
    let s = show-EdgesPut conv g.grey' shown screen room_c g.room_grey room_s room g.grey_bytes in
    record {
      conv' = s.conv';
      grey' = g.grey';
      shown' = s.shown';
      screen' = s.screen';
      runs =
          ap
            (λ r. r >>= λ grey'.
              show_edges (record { conv_data = conv; grey_8 = grey'; result = video_image shown })
                screen)
            g.runs
          ∙ s.runs;
      room_conv = s.room_conv;
      room_grey = g.room_grey;
      room_shown = s.room_shown;
      room = s.room;
      grey_bytes = g.grey_bytes;
      mean = g.mean;
      edges = s.edges;
    }

-- A round of `convolution_task` on a frame of 320 by 240 pixels, with buffers of bytes that it
-- fits, returns. Its grey buffer then holds the mean of the colours of each pixel, and the first
-- three components of each pixel of the screen are what the edge filter gives for these.
convolution_round_lem :
    (frame conv grey shown screen : List ℕ)
    → video_resolution ≤ length frame
    → 76800 ≤ length conv
    → 76800 ≤ length grey
    → video_resolution ≤ length shown
    → video_resolution ≤ length screen
    → IsBytes frame
    → IsBytes grey
    → (t : EdgeTask) × (screen' : List ℕ) × (convolution_round
          (video_image frame)
          (record { conv_data = conv; grey_8 = grey; result = video_image shown })
          screen
        ≡ ok (t, screen'))
      × ((j : ℕ) → j < 76800 → byte_at t.grey_8 j ≡ mean_at frame (j * 4))
      × ((x y c : ℕ)
          → x < width
          → y < height
          → c < 3
          → byte_at screen' ((y * width + x) * 4 + c) ≡ sobel t.grey_8 width height x y)
convolution_round_lem frame conv grey shown screen fits room_c room_g room_s room frame_bytes
      grey_bytes =
    let r =
      round-EdgesShown frame conv grey shown screen fits room_c room_g room_s room frame_bytes
        grey_bytes in
    (
      record { conv_data = r.conv'; grey_8 = r.grey'; result = video_image r.shown' },
      r.screen',
      r.runs,
      r.mean,
      r.edges,
    )

-- A round of `greyscale_task` on a frame of 320 by 240 pixels, if its result was set up as such a frame
-- and has the room, returns; the first three components of each pixel of the screen are then the mean
-- of its colours, and there is as much room as before.
pub greyscale_round_lem :
    (frame shown screen : List ℕ)
    → video_resolution ≤ length frame
    → video_resolution ≤ length shown
    → video_resolution ≤ length screen
    → IsBytes frame
    → (shown' screen' : List ℕ) × (greyscale_round (video_image frame) (video_image shown) screen
        ≡ ok (video_image shown', screen'))
      × (video_resolution ≤ length shown')
      × (video_resolution ≤ length screen')
      × ((j c : ℕ)
          → j < width * height
          → c < 3
          → byte_at screen' (j * 4 + c) ≡ mean_at frame (j * 4))
unfolding greyscale_round
greyscale_round_lem frame shown screen fits room_s room frame_bytes =
    let (s, runs, len, grey, _) =
      rgba_to_grayscale32_lem (video_image frame) shown refl (omega arith) fits room_s
        frame_bytes in
    let screen' = take video_resolution s ++ drop video_resolution screen in
    (
      s,
      screen',
      rw (runs, memcpy_lem screen s video_resolution (omega arith) room) refl,
      omega (arith, len, room_s),
      omega (
        arith,
        length-append (take video_resolution s) (drop video_resolution screen),
        length-take video_resolution s,
        length-drop video_resolution screen,
        len,
        room_s,
        room,
      ),
      (λ j c hj hc.
          byte_at-take video_resolution s (drop video_resolution screen) _ (omega arith)
            (omega arith)
          ∙ grey (j * 4 + c) (omega arith)
          ∙ grey32_at-mean frame shown (j * 4) c hc (omega arith)),
    )
