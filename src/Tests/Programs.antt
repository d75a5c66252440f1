-- ===== src/Tests/Programs.antt =====
-- The theorems about `main` and about the interfaces that it stands on, on concrete devices.
use ptr24_lab.Prelude.{◌≡◌, refl, Bool, true, false, [], ◌∷◌, some, none, fault, replicate}
use ptr24_lab.Control.Task.{control_round}
use ptr24_lab.Io.Board.{Pointer}
use ptr24_lab.Io.Refinement.{io_utils}
use ptr24_lab.Wav.Interface.{AudioUtils}
use ptr24_lab.Wav.Device.{audio_utils}
use ptr24_lab.Wav.Recorder.{Blank, Recording, IsRecorder, audio_utils-IsRecorder}
use ptr24_lab.Video.Interface.{VideoUtils}
use ptr24_lab.Video.Device.{video_utils}
use ptr24_lab.Main.Run.{
  Task, control, acquisition, treatment, monitoring, video, SystemAnswers, World, main, finished,
  tasks_run, spawn, setup_io, with_event, io_ready, event_created, spawned,
}
use ptr24_lab.Main.Script.{Follows, script, main-Follows}
use ptr24_lab.Main.Finish.{Closed, main_finishes}
use ptr24_lab.Main.Unmapped.{main_starts_unmapped}
use ptr24_lab.Tests.Devices.{memory_board, flags}
use ptr24_lab.Tests.Disks.{DiskFile, disk, disk-IsRegular, disk-IsPrompt}

audio_utils-IsRecorder_example :
    IsRecorder (audio_utils disk) (Blank disk disk-IsRegular) (Recording disk disk-IsRegular)
audio_utils-IsRecorder_example = audio_utils-IsRecorder disk disk-IsRegular disk-IsPrompt

abbrev sounds : AudioUtils
sounds = audio_utils disk

abbrev screens : VideoUtils
screens = video_utils disk

abbrev empty : DiskFile
empty = record { bytes = []; position = 0 }

-- Every task but the monitoring.
abbrev is_other : Task → Bool
is_other control = true
is_other acquisition = true
is_other treatment = true
is_other monitoring = false
is_other video = true

-- What the system answers, where the board can be mapped or not.
abbrev answers : Bool → SystemAnswers flags (io_utils memory_board) sounds screens
answers maps = record {
  io = record { task_starts = true; opens = true; maps = maps };
  event = some (λ m. false);
  sound = true;
  samples = some (replicate 128 0);
  screen = record { creates = true; starts = true; opens = true; maps = true };
  frame = none;
  spawns = λ t. true;
  ends = λ t. true;
  meanwhile = λ c w. record w {
    sound = record (w.sound) { snd = record { bytes = 1 ∷ []; position = 1 } };
    ctl = record (w.ctl) { audio_on = true; running = false };
  };
}

-- The same, but the task for the monitoring cannot be started.
abbrev refused : SystemAnswers flags (io_utils memory_board) sounds screens
refused = record (answers true) { spawns = is_other }

abbrev start : World flags (io_utils memory_board) sounds screens
start = record {
  io = record { fd_valid = false; ioctrls = Pointer.null; dev = λ i. 0 };
  sound = record { snd_fd = false; snd = empty };
  screen = (record { video_fd = false; video_buf = Pointer.null }, empty);
  ctl = record { control_event = λ m. false; audio_on = false; video_on = false; running = false };
  samples_buf = [];
  img = record { width = 0; height = 0; components = 0; bytes = [] };
  calls = [];
}

main-Follows_example :
    Follows flags
      (io_utils memory_board)
      sounds
      screens
      refused
      script
      start
      (main flags (io_utils memory_board) sounds screens refused start)
main-Follows_example = main-Follows flags (io_utils memory_board) sounds screens refused start

main_finishes_example :
    (end : World flags (io_utils memory_board) sounds screens) × (main flags
        (io_utils memory_board)
        sounds
        screens
        (answers true)
        start
      ≡ (finished, end))
    × (end.calls ≡ script)
    × Closed flags memory_board disk disk end
main_finishes_example =
    main_finishes flags memory_board disk disk (answers true) start (λ m. false) (λ c w. refl) refl
      refl refl refl (λ t. refl) (λ t. refl)

main_starts_unmapped_example :
    (left : World flags (io_utils memory_board) sounds screens) × (setup_io flags
        (io_utils memory_board)
        sounds
        screens
        (answers false)
        (with_event flags
          (io_utils memory_board)
          sounds
          screens
          (answers false)
          (answers false).event
          (spawn flags
            (io_utils memory_board)
            sounds
            screens
            (answers false)
            control
            (λ w. (finished, w))))
        start
      ≡ (
        finished,
        tasks_run flags
            (io_utils memory_board)
            sounds
            screens
            (answers false)
            (spawned control)
            left,
      ))
    × (left.calls ≡ io_ready ∷ event_created ∷ spawned control ∷ [])
    × (control_round flags (io_utils memory_board) left.io left.ctl ≡ fault)
main_starts_unmapped_example =
    main_starts_unmapped flags memory_board sounds screens (answers false) start (λ m. false)
      (λ w. (finished, w)) refl refl refl refl
