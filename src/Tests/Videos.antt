-- ===== src/Tests/Videos.antt =====
-- The theorems about the video tasks, on frames of one byte and on Boolean flags.
use ptr24_lab.Prelude.{
  take-IsBytes, false, some, [], ◌∷◌, ◌++◌, map, ℕ, zero, suc, ◌+◌, ◌*◌, ◌<◌, ◌≤◌, ◌≡◌, refl, true,
  false, List, ok, arith, length, replicate, length-replicate, take, byte_at, IsBytes, ◌==◌,
  if◌then◌else◌,
}
use ptr24_lab.Image.Grayscale.Mean.{mean_at}
use ptr24_lab.Image.Convolution.Spec.{sobel}
use ptr24_lab.Control.Task.{CtlData}
use ptr24_lab.Control.Laws.{Shows}
use ptr24_lab.Video.Edges.{edge_turn, film_edges}
use ptr24_lab.Video.Filters.{EdgeTask, width, height, video_resolution, video_image}
use ptr24_lab.Video.Task.{convolution_task}
use ptr24_lab.Video.Filtered.{convolution_task_shows}
use ptr24_lab.Video.Play.{Player, convolution_running, video_round, plays}
use ptr24_lab.Video.Shutdown.{System, Reach, top, waiting, shutdown_hangs}
use ptr24_lab.Tests.Devices.{flags, flags-IsGroup}
use ptr24_lab.Tests.Disks.{DiskFile, disk, disk-IsRegular, disk-IsPrompt}

-- Memory for a frame, all of its bytes the same.
abbrev pub even : ℕ → List ℕ
even v = replicate video_resolution v

pub length-even : (v : ℕ) → video_resolution ≤ length (even v)
length-even v = omega (arith, length-replicate {A = ℕ} video_resolution v)

pub replicate-IsBytes : (n v : ℕ) → v < 256 → IsBytes (replicate n v)
replicate-IsBytes zero v h i = omega arith
replicate-IsBytes (suc n) v h zero = h
replicate-IsBytes (suc n) v h (suc i) = replicate-IsBytes n v h i

pub small_enough : (v : ℕ) → 76800 ≤ length (even v)
small_enough v = omega (arith, length-even v)

convolution_task_shows_example :
    (screen' grey' : List ℕ) × (convolution_task
        (some (even 1))
        (some (even 2))
        (some (video_image []))
        (some (even 3))
        (map video_image ((even 5 ∷ []) ++ even 7 ∷ []))
        (even 4)
      ≡ ok (some screen'))
    × ((j : ℕ) → j < 76800 → byte_at grey' j ≡ mean_at (even 7) (j * 4))
    × ((x y c : ℕ)
        → x < width
        → y < height
        → c < 3
        → byte_at screen' ((y * width + x) * 4 + c) ≡ sobel grey' width height x y)
convolution_task_shows_example =
    convolution_task_shows (even 5 ∷ []) (even 7) (even 1) (even 2) (even 3) (even 4)
      (video_image []) ((length-even 5, replicate-IsBytes video_resolution 5 (omega arith)), tt)
      (length-even 7, replicate-IsBytes video_resolution 7 (omega arith)) (small_enough 1)
      (small_enough 2) (replicate-IsBytes video_resolution 2 (omega arith)) (length-even 3)
      (length-even 4)

-- A film of one frame.
abbrev film : ℕ → DiskFile
film at = record { bytes = even 9; position = at }

abbrev player : ℕ → Player disk flags
player at = record {
  video_file = film at;
  frame = even 0;
  screen = even 4;
  video_task_event = λ m. false;
}

-- Switches 1 and 8 are up.
abbrev pub watching : CtlData flags
watching = record {
  control_event = λ m. if m == 2 then true else m == 4;
  audio_on = false;
  video_on = true;
  running = true;
}

pub watching-Shows : Shows flags 258 watching
watching-Shows = record {
  audio = refl;
  video = refl;
  audio_flag = refl;
  video_flag = refl;
  greyscale_flag = refl;
  convolution_flag = refl;
}

-- Switches 1 and 9 are up.
abbrev pub edging : CtlData flags
edging = record watching { control_event = λ m. if m == 2 then true else m == 8 }

pub edging-Shows : Shows flags 514 edging
edging-Shows = record {
  audio = refl;
  video = refl;
  audio_flag = refl;
  video_flag = refl;
  greyscale_flag = refl;
  convolution_flag = refl;
}

film_edges_example :
    (q q' : Player disk flags) × (t' : EdgeTask) × (video_round disk flags edging (player 0)
      ≡ ok (plays q))
    × (edge_turn disk flags q
          (record { conv_data = even 1; grey_8 = even 2; result = video_image (even 3) })
        ≡ ok (q', t'))
    × (flags.is_set q'.video_task_event convolution_running ≡ false)
    × ((j : ℕ) → j < 76800 → byte_at t'.grey_8 j ≡ mean_at (take video_resolution (even 9)) (j * 4))
    × ((x y c : ℕ)
        → x < width
        → y < height
        → c < 3
        → byte_at q'.screen ((y * width + x) * 4 + c) ≡ sobel t'.grey_8 width height x y)
unfolding disk-IsRegular
film_edges_example =
    film_edges disk disk-IsRegular disk-IsPrompt flags flags-IsGroup 514 edging (player 0) (even 1)
      (even 2) (even 3) edging-Shows refl refl (length-replicate {A = ℕ} video_resolution 0)
      (length-even 4) (length-even 9)
      (take-IsBytes video_resolution (even 9) (replicate-IsBytes video_resolution 9 (omega arith)))
      (small_enough 1) (small_enough 2) (replicate-IsBytes video_resolution 2 (omega arith))
      (length-even 3)

abbrev off_air : CtlData flags
off_air = record { control_event = λ m. false; audio_on = false; video_on = false; running = true }

shutdown_hangs_example :
    (s : System flags) × Reach flags (record { ctl = off_air; video = top }) s
    × ((t : System flags) → Reach flags s t → t.video ≡ waiting)
shutdown_hangs_example =
    shutdown_hangs flags flags-IsGroup off_air 1 257 refl refl (omega arith) refl
