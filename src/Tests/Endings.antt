-- ===== src/Tests/Endings.antt =====
-- The theorems about the end of the program for the pictures, on a film of frames of one byte each.
use ptr24_lab.Prelude.{
  ℕ, ◌+◌, ◌<◌, ◌≤◌, length, ◌≡◌, ◌≢◌, ◌⊎◌, refl, false, arith, length-replicate,
}
use ptr24_lab.Video.Filters.{video_resolution, video_image}
use ptr24_lab.Video.Ending.{
  testing, waiting, working, ended, crashed, PictureTasks, PictureStep, PictureReach, here, later,
  frame_round, after_round, wake, play,
}
use ptr24_lab.Video.Ending.Descent.{rank}
use ptr24_lab.Video.Ending.Stops.{VideoRests, EdgesRest, GreysRest, pictures_end}
use ptr24_lab.Video.Ending.Fits.{TaskFit, PlayerFit, ImageFit}
use ptr24_lab.Video.Ending.Safe.{pictures_safe}
use ptr24_lab.Video.Ending.Lost.{edges_outlive_video}
use ptr24_lab.Tests.Devices.{flags, flags-IsGroup}
use ptr24_lab.Tests.Disks.{disk, disk-IsRegular, disk-IsPrompt}
use ptr24_lab.Tests.Overruns.{
  two_player, frames, length-frames, frames-IsBytes, first_frame-IsBytes,
}
use ptr24_lab.Tests.Videos.{
  even, length-even, replicate-IsBytes, small_enough, edging, edging-Shows,
}

first_ahead : (n v : ℕ) → 0 + video_resolution ≤ length (frames (n + 1) v)
first_ahead n v = omega (arith, length-frames (n + 1) v)

-- The program has ended as the filter is in its round: `video_task` may still go on, or has ended.
abbrev last_round : PictureTasks disk flags
last_round = record {
  ctl = record edging { running = false };
  video = waiting;
  player = two_player;
  edges = working;
  task = record { conv_data = even 1; grey_8 = even 2; result = video_image (even 3) };
  greys = waiting;
  grey_image = video_image (even 5);
}

pictures_end_example :
    ((VideoRests disk flags last_round
        × EdgesRest disk flags last_round
        × GreysRest disk flags last_round)
      ⊎ ((t : PictureTasks disk flags) × PictureStep disk flags last_round t))
    × ((t : PictureTasks disk flags)
        → PictureStep disk flags last_round t
        → (rank disk flags t < rank disk flags last_round) × (t.ctl ≡ last_round.ctl))
pictures_end_example = pictures_end disk flags last_round refl

two_player-PlayerFit : PlayerFit disk disk-IsRegular flags two_player
unfolding disk-IsRegular
two_player-PlayerFit = record {
  whole = length-replicate {A = ℕ} video_resolution 0;
  frame_bytes = replicate-IsBytes video_resolution 0 (omega arith);
  room = length-even 4;
  film_bytes = frames-IsBytes 2 9 (omega arith);
}

task-TaskFit : TaskFit last_round.task
task-TaskFit = record {
  shown = even 3;
  result_as = refl;
  room_shown = length-even 3;
  room_conv = small_enough 1;
  room_grey = small_enough 2;
  grey_bytes = replicate-IsBytes video_resolution 2 (omega arith);
}

-- `video_task` is woken and plays what it finds.
after_wait : PictureTasks disk flags
after_wait =
    after_round disk flags (frame_round disk flags last_round.ctl two_player)
      (record last_round { video = working })

pictures_safe_example :
    (after_wait.video ≢ crashed)
    × ((after_wait.edges ≢ crashed) ⊎ (after_wait.video ≡ ended))
    × ((after_wait.greys ≢ crashed) ⊎ (after_wait.video ≡ ended))
    × PlayerFit disk disk-IsRegular flags after_wait.player
    × TaskFit after_wait.task
    × ImageFit after_wait.grey_image
unfolding after_wait
pictures_safe_example =
    pictures_safe disk disk-IsRegular flags last_round after_wait two_player-PlayerFit task-TaskFit
      (length-even 5) (λ c. absurd (ground arith)) (λ c. absurd (ground arith))
      (λ c. absurd (ground arith)) (later (later here (wake refl refl)) (play refl))

edges_outlive_video_example :
    (s t : PictureTasks disk flags) × PictureReach disk flags
      (record {
        ctl = edging;
        video = testing;
        player = two_player;
        edges = testing;
        task = record { conv_data = even 1; grey_8 = even 2; result = video_image (even 3) };
        greys = testing;
        grey_image = video_image (even 5);
      })
      s
    × (s.ctl.running ≡ false)
    × (s.video ≡ ended)
    × (s.edges ≡ working)
    × ((u : PictureTasks disk flags)
        → PictureReach disk flags s u
        → (u.edges ≡ working) ⊎ (u.edges ≡ crashed))
    × PictureStep disk flags s t
    × (t.edges ≡ crashed)
unfolding disk-IsRegular
edges_outlive_video_example =
    edges_outlive_video disk disk-IsRegular disk-IsPrompt flags flags-IsGroup 1 514 edging
      two_player (even 1) (even 2) (even 3) (video_image (even 5)) refl (λ h. absurd (omega arith))
      edging-Shows refl refl (length-replicate {A = ℕ} video_resolution 0) (length-even 4)
      (first_ahead 1 9) (first_frame-IsBytes 2 9 (omega arith)) (small_enough 2)
      (replicate-IsBytes video_resolution 2 (omega arith))
