-- ===== src/Main/Finish.antt =====
-- The end of `main` over the calls of io_utils.c, audio_utils.c and video_utils.c, where all goes well.
use ptr24_lab.Prelude.{◌≡◌, refl, ap, ◌∙◌, true, false, ◌&&◌, List, [], ◌∷◌, ◌++◌, some}
use mathlib.Core.List.{append_assoc}
use ptr24_lab.Control.Events.{Events}
use ptr24_lab.Io.Board.{Board, Pointer}
use ptr24_lab.Io.Setup.{init_ioctl, init_wrapper, clear_ioctl}
use ptr24_lab.Io.Refinement.{io_utils}
use ptr24_lab.Wav.Files.{Files}
use ptr24_lab.Wav.Device.{audio_utils, init_audio, clear_audio}
use ptr24_lab.Video.Device.{video_utils, init_video, clear_video}
use ptr24_lab.Main.Run.{
  Task, control, acquisition, treatment, monitoring, video, Call, io_ready, event_created,
  sound_ready, video_ready, spawned, joined, finished, SystemAnswers, World, Rest, spawn, join,
  setup_io, setup_sound, setup_video, release, finish, main, tasks_run,
}
use ptr24_lab.Main.Script.{
  release_script, video_end_script, monitoring_end_script, treatment_end_script,
  acquisition_end_script, join_script, video_script, screen_script, monitoring_script,
  treatment_script, acquisition_script, sound_script, control_script, script,
}

module _ (e : Events) (b : Board) (fs gs : Files) where
  -- `main` over the calls of the three files.
  abbrev pub DeviceAnswers : Type 0
  DeviceAnswers = SystemAnswers e (io_utils b) (audio_utils fs) (video_utils gs)

  abbrev pub Devices : Type 0
  Devices = World e (io_utils b) (audio_utils fs) (video_utils gs)

  -- All descriptors are closed, and the registers are not mapped.
  pub record Closed (w : Devices) : Type 0 where
    pub io_closed : (w.io).fd_valid ≡ false
    pub unmapped : (w.io).ioctrls ≡ Pointer.null
    pub sound_closed : (w.sound).snd_fd ≡ false
    pub screen_closed : (w.screen).0.video_fd ≡ false

  module _ (ans : DeviceAnswers)
      (keeps : (c : Call) (w : Devices) → ((ans.meanwhile c w).io).ioctrls ≡ (w.io).ioctrls)
      (spawns : (t : Task) → ans.spawns t ≡ true) (ends : (t : Task) → ans.ends t ≡ true) where
    -- With the registers mapped, the rest of the program finishes with all its calls.
    abbrev Finishes : Rest e (io_utils b) (audio_utils fs) (video_utils gs) → List Call → Type 0
    Finishes k rest =
        (w : Devices)
        → (w.io).ioctrls ≡ Pointer.valid
        → (end : Devices) × (k w ≡ (finished, end)) × (end.calls ≡ w.calls ++ rest) × Closed end

    beside :
        (c : Call) (rest : List Call) (k : Rest e (io_utils b) (audio_utils fs) (video_utils gs))
        (w w' : Devices)
        → w'.calls ≡ w.calls ++ c ∷ []
        → (w'.io).ioctrls ≡ Pointer.valid
        → Finishes k rest
        → (end : Devices) × (k (tasks_run e (io_utils b) (audio_utils fs) (video_utils gs) ans c w')
            ≡ (finished, end))
          × (end.calls ≡ w.calls ++ c ∷ rest)
          × Closed end
    beside c rest k w w' added valid rest_finishes =
        let (end, runs, calls, closed) = rest_finishes _ (keeps c w' ∙ valid) in
        (
          end,
          runs,
          calls ∙ ap (λ cs. cs ++ rest) added ∙ append_assoc w.calls (c ∷ []) rest,
          closed,
        )

    spawn-Finishes :
        (t : Task) (k : Rest e (io_utils b) (audio_utils fs) (video_utils gs)) (rest : List Call)
        → Finishes k rest
        → Finishes
            (spawn e (io_utils b) (audio_utils fs) (video_utils gs) ans t k)
            (spawned t ∷ rest)
    unfolding spawn
    spawn-Finishes t k rest fin w valid =
        rw (spawns t) (beside (spawned t) rest k w _ refl valid fin)

    join-Finishes :
        (t : Task) (k : Rest e (io_utils b) (audio_utils fs) (video_utils gs)) (rest : List Call)
        → Finishes k rest
        → Finishes (join e (io_utils b) (audio_utils fs) (video_utils gs) ans t k) (joined t ∷ rest)
    unfolding join
    join-Finishes t k rest fin w valid = rw (ends t) (beside (joined t) rest k w _ refl valid fin)

    setup_sound-Finishes :
        (k : Rest e (io_utils b) (audio_utils fs) (video_utils gs)) (rest : List Call)
        → Finishes k rest
        → Finishes
            (setup_sound e (io_utils b) (audio_utils fs) (video_utils gs) ans k)
            (sound_ready ∷ rest)
    unfolding setup_sound init_audio
    setup_sound-Finishes k rest fin w valid = beside sound_ready rest k w _ refl valid fin

    setup_video-Finishes :
        (k : Rest e (io_utils b) (audio_utils fs) (video_utils gs)) (rest : List Call)
        → (ans.screen.creates && ans.screen.starts) ≡ true
        → Finishes k rest
        → Finishes
            (setup_video e (io_utils b) (audio_utils fs) (video_utils gs) ans k)
            (video_ready ∷ rest)
    unfolding setup_video init_video
    setup_video-Finishes k rest starts fin w valid =
        rw starts (beside video_ready rest k w _ refl valid fin)

    release-Finishes :
        Finishes (release e (io_utils b) (audio_utils fs) (video_utils gs) ans) release_script
    unfolding release clear_ioctl clear_audio clear_video
    release-Finishes w valid = rw valid (
      _,
      refl,
      simp append_assoc,
      record { io_closed = refl; unmapped = refl; sound_closed = refl; screen_closed = refl },
    )

    finish-Finishes :
        Finishes (finish e (io_utils b) (audio_utils fs) (video_utils gs) ans) join_script
    unfolding finish
    finish-Finishes = join-Finishes control _ acquisition_end_script (
        join-Finishes acquisition _ treatment_end_script (
          join-Finishes treatment _ monitoring_end_script (
            join-Finishes monitoring _ video_end_script
              (join-Finishes video _ release_script release-Finishes))))

    -- From the start of the control task on.
    started-Finishes :
        (ans.screen.creates && ans.screen.starts) ≡ true
        → Finishes
            (spawn e (io_utils b) (audio_utils fs) (video_utils gs) ans control (
              setup_sound e (io_utils b) (audio_utils fs) (video_utils gs) ans (
                spawn e (io_utils b) (audio_utils fs) (video_utils gs) ans acquisition (
                  spawn e (io_utils b) (audio_utils fs) (video_utils gs) ans treatment (
                    spawn e (io_utils b) (audio_utils fs) (video_utils gs) ans monitoring (
                      setup_video e (io_utils b) (audio_utils fs) (video_utils gs) ans (
                        spawn e
                          (io_utils b)
                          (audio_utils fs)
                          (video_utils gs)
                          ans
                          video
                          (finish e (io_utils b) (audio_utils fs) (video_utils gs) ans))))))))
            control_script
    started-Finishes starts = spawn-Finishes control _ sound_script (
        setup_sound-Finishes _ acquisition_script (
          spawn-Finishes acquisition _ treatment_script (
            spawn-Finishes treatment _ monitoring_script (
              spawn-Finishes monitoring _ screen_script (
                setup_video-Finishes _ video_script starts
                  (spawn-Finishes video _ join_script finish-Finishes))))))

-- Where the board is opened and mapped, its event is created, the screen is set up, and every task starts
-- and comes to its end, `main` returns 0 after its whole script, and then all three descriptors are
-- closed and the registers are not mapped, whatever the samples and the frame got, and whatever the tasks
-- do to the devices, the shared record and the buffers, but for the pointer to the registers.
pub main_finishes :
    (e : Events) (b : Board) (fs gs : Files) (ans : DeviceAnswers e b fs gs) (w : Devices e b fs gs)
    (g : e.Group)
    → ((c : Call) (w : Devices e b fs gs) → ((ans.meanwhile c w).io).ioctrls ≡ (w.io).ioctrls)
    → ans.io.task_starts ≡ true
    → (ans.io.opens && ans.io.maps) ≡ true
    → ans.event ≡ some g
    → (ans.screen.creates && ans.screen.starts) ≡ true
    → ((t : Task) → ans.spawns t ≡ true)
    → ((t : Task) → ans.ends t ≡ true)
    → (end : Devices e b fs gs) × (main e (io_utils b) (audio_utils fs) (video_utils gs) ans w
        ≡ (finished, end))
      × (end.calls ≡ w.calls ++ script)
      × Closed e b fs gs end
unfolding main setup_io init_ioctl init_wrapper
main_finishes e b fs gs ans w g keeps starts mapped event screen spawns ends =
    let set_up : Devices e b fs gs = record w {
      io = record (w.io) { fd_valid = true; ioctrls = Pointer.valid };
      ctl = record (w.ctl) { control_event = g; running = true };
      calls = (w.calls ++ io_ready ∷ []) ++ event_created ∷ [];
    } in
    let (end, runs, calls, closed) =
      started-Finishes e b fs gs ans keeps spawns ends screen set_up refl in
    (end, simp (starts, mapped, event) runs, calls ∙ simp append_assoc, closed)
