-- ===== src/Tests/Films.antt =====
-- The theorem about many rounds of the video task, on a film of two frames, and the one about what the
-- acquisition delivers, on a device that holds two messages.
use ptr24_lab.Prelude.{
  ℕ, ◌*◌, ◌≤◌, ◌≡◌, refl, true, false, List, [], ◌∷◌, some, ok, arith, length, replicate,
  length-replicate, take, drop, ◌==◌,
}
use ptr24_lab.Control.Task.{CtlData}
use ptr24_lab.Wav.Device.{SoundDevice, audio_utils}
use ptr24_lab.Audio.Deliver.{Line, terminated, acquisition_task}
use ptr24_lab.Audio.Delivered.{bytes_of, acquisition_task_delivers}
use ptr24_lab.Video.Filters.{video_resolution}
use ptr24_lab.Video.Task.{VideoEnd, VideoAnswers, video_task}
use ptr24_lab.Video.Film.{video_task_plays}
use ptr24_lab.Control.Laws.{Shows}
use ptr24_lab.Tests.Devices.{flags}
use ptr24_lab.Tests.Disks.{DiskFile, disk, disk-IsRegular, disk-IsPrompt}

abbrev device : SoundDevice disk
device = record { snd_fd = true; snd = record { bytes = replicate 1030 7; position = 5 } }

acquisition_task_delivers_example :
    (end : Line (audio_utils disk)) × (acquisition_task
        (audio_utils disk)
        false
        (some 3)
        true
        (1 ∷ 2 ∷ [])
        device
      ≡ (terminated, end))
    × (bytes_of end.received ≡ take 1024 (drop 5 (replicate 1030 7)))
unfolding disk-IsRegular
acquisition_task_delivers_example =
    acquisition_task_delivers disk disk-IsRegular false 3 (1 ∷ 2 ∷ []) device disk-IsPrompt
      (omega arith) (omega arith, (omega arith, tt)) refl
      (omega (arith, length-replicate {A = ℕ} 1030 7))

-- Memory for frames, all of its bytes the same.
abbrev even : ℕ → ℕ → List ℕ
even n v = replicate (n * video_resolution) v

length-even : (n v : ℕ) → n * video_resolution ≤ length (even n v)
length-even n v = omega (arith, length-replicate {A = ℕ} (n * video_resolution) v)

abbrev two_frames : DiskFile
two_frames = record { bytes = even 2 9; position = 0 }

abbrev on_air : CtlData flags
on_air = record { control_event = λ m. m == 2; audio_on = false; video_on = true; running = true }

on_air-Shows : Shows flags 2 on_air
on_air-Shows = record {
  audio = refl;
  video = refl;
  audio_flag = refl;
  video_flag = refl;
  greyscale_flag = refl;
  convolution_flag = refl;
}

abbrev studio : VideoAnswers disk flags
studio = record {
  event = some (λ m. false);
  greyscale_starts = true;
  convolution_starts = true;
  periodic = true;
  video_file = some two_frames;
}

video_task_plays_example :
    (screen' : List ℕ) × (video_task disk flags studio (on_air ∷ on_air ∷ []) (even 1 0) (even 1 4)
      ≡ ok (VideoEnd.terminated, screen'))
    × (take video_resolution screen'
        ≡ take video_resolution (drop (video_resolution * 1) (even 2 9)))
unfolding disk-IsRegular
video_task_plays_example =
    video_task_plays disk disk-IsRegular disk-IsPrompt flags studio (λ m. false) two_frames
      (on_air ∷ []) on_air 2 (even 1 0) (even 1 4) refl refl refl refl refl refl
      ((2, on_air-Shows, refl), tt) on_air-Shows refl refl refl
      (length-replicate {A = ℕ} (1 * video_resolution) 0) (length-even 1 4) (length-even 2 9)
