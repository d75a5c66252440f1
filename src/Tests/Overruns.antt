-- ===== src/Tests/Overruns.antt =====
-- The theorems about the filters over several frames, on a film of two frames of one byte each.
use ptr24_lab.Prelude.{
  take-IsBytes, IsBytes, ℕ, ◌+◌, ◌*◌, ◌<◌, ◌≤◌, ◌≡◌, refl, true, false, List, some, none, ok, arith,
  length, replicate, length-replicate, take, drop, byte_at,
}
use ptr24_lab.Image.Grayscale.Mean.{mean_at}
use ptr24_lab.Image.Convolution.Spec.{sobel}
use ptr24_lab.Video.Edges.{edge_start, edge_finish}
use ptr24_lab.Video.Filters.{EdgeTask, width, height, video_resolution, video_image}
use ptr24_lab.Video.Overrun.{second_frame_lost}
use ptr24_lab.Video.Torn.{torn, torn_start, frame_torn}
use ptr24_lab.Video.Edges.{greyscale_stop}
use ptr24_lab.Video.Greys.{frame_at, grey_film, film_greys}
use ptr24_lab.Video.Play.{Player, video_round, plays, greyscale_running}
use ptr24_lab.Tests.Devices.{flags, flags-IsGroup}
use ptr24_lab.Tests.Disks.{disk, disk-IsRegular, disk-IsPrompt}
use ptr24_lab.Tests.Videos.{
  even, length-even, replicate-IsBytes, small_enough, edging, edging-Shows, watching,
  watching-Shows,
}

-- Memory for frames, all of its bytes the same.
abbrev pub frames : ℕ → ℕ → List ℕ
frames n v = replicate (n * video_resolution) v

pub length-frames : (n v : ℕ) → 0 + n * video_resolution ≤ length (frames n v)
length-frames n v = omega (arith, length-replicate {A = ℕ} (n * video_resolution) v)

pub frames-IsBytes : (n v : ℕ) → v < 256 → IsBytes (frames n v)
frames-IsBytes n v h = replicate-IsBytes (n * video_resolution) v h

pub first_frame-IsBytes :
    (n v : ℕ) → v < 256 → IsBytes (take video_resolution (drop 0 (frames n v)))
first_frame-IsBytes n v h = take-IsBytes video_resolution (frames n v) (frames-IsBytes n v h)

abbrev pub two_player : Player disk flags
two_player = record {
  video_file = record { bytes = frames 2 9; position = 0 };
  frame = even 0;
  screen = even 4;
  video_task_event = λ m. false;
}

second_frame_lost_example :
    (p₁ p₂ p₃ : Player disk flags) × (t₁ t₃ : EdgeTask) × (video_round disk flags edging two_player
      ≡ ok (plays p₁))
    × (edge_start disk flags p₁
          (record { conv_data = even 1; grey_8 = even 2; result = video_image (even 3) })
        ≡ ok (some t₁))
    × (video_round disk flags edging p₁ ≡ ok (plays p₂))
    × (edge_finish disk flags p₂ t₁ ≡ ok (p₃, t₃))
    × ((j : ℕ)
        → j < 76800
        → byte_at t₁.grey_8 j ≡ mean_at (take video_resolution (drop 0 (frames 2 9))) (j * 4))
    × ((x y c : ℕ)
        → x < width
        → y < height
        → c < 3
        → byte_at p₃.screen ((y * width + x) * 4 + c) ≡ sobel t₁.grey_8 width height x y)
    × (p₃.frame ≡ take video_resolution (drop (0 + video_resolution) (frames 2 9)))
    × (edge_start disk flags p₃ t₃ ≡ ok none)
unfolding disk-IsRegular
second_frame_lost_example =
    second_frame_lost disk disk-IsRegular disk-IsPrompt flags flags-IsGroup 514 edging two_player
      (even 1) (even 2) (even 3) edging-Shows refl refl
      (length-replicate {A = ℕ} video_resolution 0) (length-even 4) (length-frames 2 9)
      (take-IsBytes video_resolution (drop 0 (frames 2 9))
        (replicate-IsBytes (2 * video_resolution) 9 (omega arith)))
      (small_enough 1) (small_enough 2) (replicate-IsBytes video_resolution 2 (omega arith))
      (length-even 3)

frame_torn_example :
    (p₁ p₂ p₃ : Player disk flags) × (t₁ t₃ : EdgeTask) × (video_round disk flags edging two_player
      ≡ ok (plays p₁))
    × (video_round disk flags edging p₁ ≡ ok (plays p₂))
    × (torn_start disk flags 38400 p₁ p₂
          (record { conv_data = even 1; grey_8 = even 2; result = video_image (even 3) })
        ≡ ok (some t₁))
    × (edge_finish disk flags p₂ t₁ ≡ ok (p₃, t₃))
    × ((j : ℕ)
        → j < 76800
        → byte_at t₁.grey_8 j
          ≡ mean_at
              (torn 38400
                (take video_resolution (drop 0 (frames 2 9)))
                (take video_resolution (drop (0 + video_resolution) (frames 2 9)))
                j)
              (j * 4))
    × ((x y c : ℕ)
        → x < width
        → y < height
        → c < 3
        → byte_at p₃.screen ((y * width + x) * 4 + c) ≡ sobel t₁.grey_8 width height x y)
    × (edge_start disk flags p₃ t₃ ≡ ok none)
unfolding disk-IsRegular
frame_torn_example =
    frame_torn disk disk-IsRegular disk-IsPrompt flags flags-IsGroup 514 edging two_player (even 1)
      (even 2) (even 3) 38400 edging-Shows refl refl (length-replicate {A = ℕ} video_resolution 0)
      (length-even 4) (length-frames 2 9) (frames-IsBytes 2 9 (omega arith)) (small_enough 1)
      (small_enough 2) (replicate-IsBytes video_resolution 2 (omega arith)) (length-even 3)

film_greys_example :
    (p' : Player disk flags) × (shown' : List ℕ) × (grey_film disk flags watching 2 two_player
        (video_image (even 3))
      ≡ ok (some (p', video_image shown')))
    × ((j c : ℕ)
        → j < width * height
        → c < 3
        → byte_at p'.screen (j * 4 + c) ≡ mean_at (frame_at 0 (frames 2 9) 1) (j * 4))
    × (disk-IsRegular.offset p'.video_file ≡ 0 + 2 * video_resolution)
    × (flags.is_set p'.video_task_event greyscale_running ≡ false)
    × (flags.is_set p'.video_task_event greyscale_stop ≡ true)
unfolding disk-IsRegular
film_greys_example =
    film_greys disk disk-IsRegular disk-IsPrompt flags flags-IsGroup 258 watching two_player
      (even 3) 1 watching-Shows refl refl refl (length-replicate {A = ℕ} video_resolution 0)
      (length-even 4) (length-even 3) (length-frames 2 9) (frames-IsBytes 2 9 (omega arith))
