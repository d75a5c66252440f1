-- ===== src/Tests/Reports.antt =====
-- The theorem about the whole way of the sound, on a device that holds sixteen messages and numbers
-- modulo 2, and those about the tasks side by side.
use ptr24_lab.Prelude.{
  ℕ, ◌+◌, ◌%◌, ◌<◌, ◌≡◌, ◌≢◌, ◌⊎◌, inr, refl, true, false, List, [], ◌∷◌, ◌++◌, some, none, arith,
  get_or, replicate, take, drop, ◌==◌, if◌then◌else◌,
}
use ptr24_lab.Control.Task.{CtlData}
use ptr24_lab.Wav.Device.{SoundDevice, audio_utils}
use ptr24_lab.Audio.Acquisition.{samples, unsized, Mailbox}
use ptr24_lab.Audio.Treatment.{Treatment}
use ptr24_lab.Audio.Deliver.{Line, acquisition_task, acquires, receives, line_run}
use ptr24_lab.Audio.Delivered.{bytes_of}
use ptr24_lab.Audio.Peak.{Peak}
use ptr24_lab.Audio.Report.{Numbers, RoundInputs}
use ptr24_lab.Audio.InOrder.{line_in_order}
use ptr24_lab.Audio.Shutdown.{
  SoundTasks, SoundStep, SoundReach, testing, receiving, ended, crashed, sound_rank,
}
use ptr24_lab.Audio.Shutdown.Ends.{sound_shutdown_ends}
use ptr24_lab.Audio.Shutdown.Crash.{sound_shutdown_crashes}
use ptr24_lab.Audio.Processor.Yields.{own_steps, InLoop, Broke, sound_on_yields}
use ptr24_lab.Audio.Processor.{mover, CanWait, CpuReach, CpuStep, sound_off_spins}
use ptr24_lab.Main.Run.{Task, control, treatment}
use ptr24_lab.Tests.Devices.{flags, flags-IsGroup, naturals}
use ptr24_lab.Tests.Disks.{disk, disk-IsRegular, disk-IsPrompt}
use ptr24_lab.Tests.Transforms.{parities}

abbrev bits : Numbers
bits = record {
  complexes = parities;
  doubles = naturals;
  of_sample = λ v. v % 2 == 1;
  value = λ b. if b then (1, 0) else (0, 0);
}

abbrev long_device : SoundDevice disk
long_device = record { snd_fd = true; snd = record { bytes = replicate 8200 7; position = 5 } }

abbrev one_each : List ℕ
one_each = replicate 16 1

abbrev heard : ℕ → RoundInputs
heard k = record {
  audio_on = true;
  message =
      get_or
        (acquisition_task (audio_utils disk) false (some 3) true one_each long_device).1.received k
        unsized;
  previous = 10;
  now = 25;
  has_room = true;
}

abbrev nothing : List ℕ
nothing = replicate 16384 0

abbrev device : SoundDevice disk
device = record { snd_fd = true; snd = record { bytes = replicate 1030 7; position = 5 } }

abbrev by_turns : Line (audio_utils disk)
by_turns =
    line_run (audio_utils disk) false (acquires ∷ receives ∷ receives ∷ acquires ∷ [])
      (record { sound = device; mailbox = record { free = 2; queue = [] }; received = [] })

line_in_order_example :
    (n : ℕ) × (disk-IsRegular.offset (by_turns.sound).snd ≡ 5 + n)
    × (bytes_of by_turns.received ++ bytes_of (by_turns.mailbox).queue
        ≡ take n (drop 5 (replicate 1030 7)))
unfolding disk-IsRegular
line_in_order_example =
    line_in_order disk disk-IsRegular false (acquires ∷ receives ∷ receives ∷ acquires ∷ []) device
      2 disk-IsPrompt refl

abbrev listening : CtlData flags
listening = record {
  control_event = λ m. m == 1;
  audio_on = true;
  video_on = false;
  running = true;
}

abbrev empty_box : Mailbox
empty_box = record { free = 2; queue = [] }

abbrev gathering : Treatment
gathering = record { x = replicate 8 0; size = 0; frame = none }

sound_shutdown_crashes_example :
    (s : SoundTasks flags) × SoundReach flags false
      (record { ctl = listening; mailbox = some empty_box; gathering = gathering; place = testing })
      s
    × ((t : SoundTasks flags)
        → SoundReach flags false s t
        → (t.place ≢ ended)
          × ((t.place ≡ crashed) ⊎ ((u : SoundTasks flags) × SoundStep flags false t u))
          × ((u : SoundTasks flags)
              → SoundStep flags false t u
              → sound_rank flags false u < sound_rank flags false t))
sound_shutdown_crashes_example =
    sound_shutdown_crashes flags flags-IsGroup false listening empty_box gathering 1 1 refl refl
      refl (omega arith)

abbrev quiet : SoundTasks flags
quiet = record {
  ctl = record listening { running = false };
  mailbox = some empty_box;
  gathering = gathering;
  place = testing;
}

sound_shutdown_ends_example :
    (((quiet.place ≡ crashed) ⊎ ((quiet.place ≡ ended) × (quiet.mailbox ≡ none)))
      ⊎ ((t : SoundTasks flags) × SoundStep flags false quiet t))
    × ((t : SoundTasks flags)
        → SoundStep flags false quiet t
        → (sound_rank flags false t < sound_rank flags false quiet) × (t.ctl ≡ quiet.ctl))
    × ((t : SoundTasks flags)
        → SoundReach flags false quiet t
        → (t.place ≢ crashed) ⊎ ((quiet.place ≡ crashed) ⊎ (quiet.place ≡ receiving)))
sound_shutdown_ends_example = sound_shutdown_ends flags false quiet refl

sound_off_spins_example :
    (s : SoundTasks flags) × CpuReach flags false control
      (record { ctl = listening; mailbox = some empty_box; gathering = gathering; place = testing })
      treatment
      s
    × (s.ctl.running ≡ true)
    × CpuStep flags false treatment s treatment s
    × ((d : Task) (t : SoundTasks flags)
        → CpuReach flags false treatment s d t
        → (d ≡ treatment) × (t ≡ s))
sound_off_spins_example =
    sound_off_spins flags flags-IsGroup false listening (some empty_box) gathering 2 refl refl

abbrev sounding_box : Mailbox
sounding_box = record { free = 0; queue = samples (1 ∷ 2 ∷ []) ∷ unsized ∷ [] }

abbrev sounding : SoundTasks flags
sounding = record {
  ctl = listening;
  mailbox = some sounding_box;
  gathering = gathering;
  place = receiving;
}

sound_on_yields_example :
    (CanWait flags false treatment sounding
      ⊎ ((t : SoundTasks flags) × (step : SoundStep flags false sounding t) × (mover flags false
              step
            ≡ treatment)))
    × ((t : SoundTasks flags) (step : SoundStep flags false sounding t)
        → mover flags false step ≡ treatment
        → (t.place ≡ crashed)
          ⊎ Broke flags false t
          ⊎ ((own_steps flags false t < own_steps flags false sounding)
              × (t.ctl ≡ sounding.ctl)
              × InLoop flags false t))
sound_on_yields_example =
    sound_on_yields flags false sounding refl refl (inr refl, sounding_box, refl)
