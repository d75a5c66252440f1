-- ===== src/Video/Filtered.antt =====
-- What `convolution_task` shows over many frames.
use ptr24_lab.Prelude.{
  ℕ, ◌+◌, ◌*◌, ◌<◌, ◌≤◌, ◌≡◌, refl, ap, ◌∙◌, List, [], ◌∷◌, ◌++◌, some, map, ok, ◌>>=◌, length,
  byte_at, IsBytes,
}
use ptr24_lab.Image.Grayscale.{Img1D}
use ptr24_lab.Image.Grayscale.Mean.{mean_at}
use ptr24_lab.Image.Convolution.Spec.{sobel}
use ptr24_lab.Video.Filters.{
  width, height, video_resolution, video_image, EdgeTask, convolution_start,
}
use ptr24_lab.Video.Shown.{round-EdgesShown}
use ptr24_lab.Video.Task.{convolution_loop, convolution_task}

-- Memory that holds a frame.
abbrev pub IsFrame : List ℕ → Type 0
IsFrame bs = (video_resolution ≤ length bs) × IsBytes bs

abbrev pub AreFrames : List (List ℕ) → Type 0
AreFrames [] = Unit
AreFrames (bs ∷ frames) = IsFrame bs × AreFrames frames

-- The buffers have the room for a frame.
record IsRoomy (conv grey shown screen : List ℕ) : Type 0 where
  room_conv : 76800 ≤ length conv
  room_grey : 76800 ≤ length grey
  room_shown : video_resolution ≤ length shown
  room : video_resolution ≤ length screen
  grey_bytes : IsBytes grey

abbrev edge_task : List ℕ → List ℕ → List ℕ → EdgeTask
edge_task conv grey shown = record { conv_data = conv; grey_8 = grey; result = video_image shown }

-- The rounds for the first frames.
loop_on :
    (frames rest : List (List ℕ)) (conv grey shown screen : List ℕ)
    → AreFrames frames
    → IsRoomy conv grey shown screen
    → (conv' grey' shown' screen' : List ℕ) × (convolution_loop
          (map video_image (frames ++ rest))
          (edge_task conv grey shown)
          screen
        ≡ convolution_loop (map video_image rest) (edge_task conv' grey' shown') screen')
      × IsRoomy conv' grey' shown' screen'
unfolding convolution_loop
loop_on [] rest conv grey shown screen are roomy = (conv, grey, shown, screen, refl, roomy)
loop_on (bs ∷ frames) rest conv grey shown screen (is, are) roomy =
    let r =
      round-EdgesShown bs conv grey shown screen is.0 roomy.room_conv roomy.room_grey
        roomy.room_shown roomy.room is.1 roomy.grey_bytes in
    let (conv', grey', shown', screen', later, roomy') =
      loop_on frames rest r.conv' r.grey' r.shown' r.screen' are (record {
        room_conv = r.room_conv;
        room_grey = r.room_grey;
        room_shown = r.room_shown;
        room = r.room;
        grey_bytes = r.grey_bytes;
      }) in
    (
      conv',
      grey',
      shown',
      screen',
      ap (λ x. x >>= λ y. convolution_loop (map video_image (frames ++ rest)) y.0 y.1) r.runs
          ∙ later,
      roomy',
    )

-- If `result` points to memory, the allocations succeed with the room for a frame, and the screen has
-- it too, then `convolution_task`, woken for some frames and then for a last one, returns; the first
-- three components of each pixel of the screen are then what the edge filter gives for the means of the
-- colours of the last frame.
pub convolution_task_shows :
    (frames : List (List ℕ)) (frame conv grey image screen : List ℕ) (r : Img1D)
    → AreFrames frames
    → IsFrame frame
    → 76800 ≤ length conv
    → 76800 ≤ length grey
    → IsBytes grey
    → video_resolution ≤ length image
    → video_resolution ≤ length screen
    → (screen' grey' : List ℕ) × (convolution_task
          (some conv)
          (some grey)
          (some r)
          (some image)
          (map video_image (frames ++ frame ∷ []))
          screen
        ≡ ok (some screen'))
      × ((j : ℕ) → j < 76800 → byte_at grey' j ≡ mean_at frame (j * 4))
      × ((x y c : ℕ)
          → x < width
          → y < height
          → c < 3
          → byte_at screen' ((y * width + x) * 4 + c) ≡ sobel grey' width height x y)
unfolding convolution_task convolution_start convolution_loop
convolution_task_shows frames frame conv grey image screen r are is room_conv room_grey grey_bytes
      room_shown room =
    let (conv₁, grey₁, shown₁, screen₁, runs, roomy) =
      loop_on frames (frame ∷ []) conv grey image screen are (record {
        room_conv = room_conv;
        room_grey = room_grey;
        room_shown = room_shown;
        room = room;
        grey_bytes = grey_bytes;
      }) in
    let last =
      round-EdgesShown frame conv₁ grey₁ shown₁ screen₁ is.0 roomy.room_conv roomy.room_grey
        roomy.room_shown roomy.room is.1 roomy.grey_bytes in
    (
      last.screen',
      last.grey',
      ap (λ x. x >>= λ y. ok (some y.1)) runs
          ∙ ap (λ x. (x >>= λ y. convolution_loop [] y.0 y.1) >>= λ z. ok (some z.1)) last.runs,
      last.mean,
      last.edges,
    )
