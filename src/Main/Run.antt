-- ===== src/Main/Run.antt =====
-- The steps of `main`, each with the rest of the program as its continuation. What the system answers
-- is an argument, and so is whether each task comes to its end.
use ptr24_lab.Prelude.{ℕ, Bool, true, List, [], ◌∷◌, ◌++◌, Option, none, some, ◌==◌, if◌then◌else◌}
use ptr24_lab.Image.Grayscale.{Img1D}
use ptr24_lab.Control.Events.{Events}
use ptr24_lab.Control.Task.{CtlData}
use ptr24_lab.Io.Interface.{IoUtils}
use ptr24_lab.Wav.Files.{Code, success, failure}
use ptr24_lab.Wav.Interface.{AudioUtils}
use ptr24_lab.Video.Interface.{VideoUtils}
use ptr24_lab.Video.Filters.{video_image, allocated}

pub data Task : Type 0 where
  control acquisition treatment monitoring video : Task

-- The calls that `main` got done.
pub data Call : Type 0 where
  io_ready event_created sound_ready video_ready : Call
  spawned joined : Task → Call
  io_cleared sound_cleared video_cleared samples_freed frame_freed : Call

-- `main` returns 0, exits with EXIT_FAILURE, returns what `init_video` gave, or waits for a task.
pub data End : Type 0 where
  finished exited returned : End
  waits_for : Task → End

module _ (e : Events) (u : IoUtils) (a : AudioUtils) (v : VideoUtils) where
  -- The devices, the shared record, the two buffers of `main`, and the calls so far.
  pub record World : Type 0 where
    pub io : u.State
    pub sound : a.Sound
    pub screen : v.State
    pub ctl : CtlData e
    pub samples_buf : List ℕ
    pub img : Img1D
    pub calls : List Call

  -- What the system answers, and what the tasks that run then have done to the devices, the shared record
  -- and the buffers when `main` goes on after a call.
  pub record SystemAnswers : Type 0 where
    pub io : u.Answers
    pub event : Option e.Group
    pub sound : Bool
    pub samples : Option (List ℕ)
    pub screen : v.Answers
    pub frame : Option (List ℕ)
    pub spawns : Task → Bool
    pub ends : Task → Bool
    pub meanwhile : Call → World → World

  abbrev pub done : Call → World → World
  done c w = record w { calls = w.calls ++ c ∷ [] }

  abbrev pub Rest : Type 0
  Rest = World → End × World

  module _ (ans : SystemAnswers) where
    -- The tasks do not touch what `main` got done.
    abbrev pub tasks_run : Call → World → World
    tasks_run c w = record (ans.meanwhile c w) { calls = w.calls }

    -- A call that got done while tasks run.
    abbrev pub done_beside : Call → World → World
    done_beside c w = tasks_run c (done c w)

    -- `rt_task_spawn`, and the exit where it fails.
    unfoldable pub spawn : Task → Rest → Rest
    spawn t k w = if ans.spawns t then k (done_beside (spawned t) w) else (exited, w)

    -- `rt_task_join`.
    unfoldable pub join : Task → Rest → Rest
    join t k w = if ans.ends t then k (done_beside (joined t) w) else (waits_for t, w)

    unfoldable pub setup_io : Rest → Rest
    setup_io k w =
        let (r, io') = u.init_ioctl ans.io w.io in
        let w' = record w { io = io' } in if r == 0 then k (done io_ready w') else (exited, w')

    -- Of the shared record only two fields are set.
    abbrev pub with_event : Option e.Group → Rest → Rest
    with_event none k w = (exited, w)
    with_event (some g) k w = k (
        done event_created
          (record w { ctl = record (w.ctl) { control_event = g; running = true } }))

    unfoldable pub setup_sound : Rest → Rest
    setup_sound k w =
        let (r, sound') = a.init_audio ans.sound w.sound in
        let w' = record w { sound = sound' } in
        if r == 0
        then k (done_beside sound_ready (record w' { samples_buf = allocated ans.samples }))
        else (exited, w')

    abbrev pub with_video : Code → v.State → Rest → Rest
    with_video failure screen' k w = (returned, record w { screen = screen' })
    with_video success screen' k w = k (
        done_beside video_ready
          (record w { screen = screen'; img = video_image (allocated ans.frame) }))

    unfoldable pub setup_video : Rest → Rest
    setup_video k w =
        let (r, screen') = v.init_video ans.screen w.screen in with_video r screen' k w

    -- The end, after all tasks have ended.
    unfoldable pub release : Rest
    release w =
        let (goes_on, io') = u.clear_ioctl w.io in
        if goes_on
        then (
          finished,
          done frame_freed (
              done samples_freed (
                done video_cleared
                  (record (done sound_cleared (record (done io_cleared (record w { io = io' })) {
                    sound = a.clear_audio w.sound;
                  })) { screen = v.clear_video w.screen }))),
        )
        else (exited, record w { io = io' })

    unfoldable pub finish : Rest
    finish = join control (join acquisition (join treatment (join monitoring (join video release))))

    unfoldable pub main : Rest
    main = setup_io (
        with_event ans.event (
          spawn control (
            setup_sound (
              spawn acquisition
                (spawn treatment (spawn monitoring (setup_video (spawn video finish))))))))
