-- ===== src/Main/Script.antt =====
-- The order of what `main` does: it goes through one script, up to the first call that does not succeed.
use ptr24_lab.Prelude.{
  ◌≡◌, ◌≢◌, ◌==◌, inl, inr, refl, sym, ap, ◌∙◌, true, false, Bool-cases, List, [], ◌∷◌, ◌++◌,
  Option, none, some, arith,
}
use mathlib.Core.List.{append-nil, append_assoc}
use ptr24_lab.Control.Events.{Events}
use ptr24_lab.Io.Interface.{IoUtils}
use ptr24_lab.Wav.Files.{Code, success, failure}
use ptr24_lab.Wav.Interface.{AudioUtils}
use ptr24_lab.Video.Interface.{VideoUtils}
use ptr24_lab.Main.Run.{
  Task, control, acquisition, treatment, monitoring, video, Call, io_ready, event_created,
  sound_ready, video_ready, spawned, joined, io_cleared, sound_cleared, video_cleared,
  samples_freed, frame_freed, End, finished, exited, returned, waits_for, SystemAnswers, World,
  Rest, spawn, join, setup_io, with_event, setup_sound, with_video, setup_video, release, finish,
  main, done,
}

-- The calls of a whole run, from its end: what is given back, the tasks that are waited for, and what is
-- set up and started.
abbrev pub release_script : List Call
release_script = io_cleared ∷ sound_cleared ∷ video_cleared ∷ samples_freed ∷ frame_freed ∷ []

abbrev pub video_end_script : List Call
video_end_script = joined video ∷ release_script

abbrev pub monitoring_end_script : List Call
monitoring_end_script = joined monitoring ∷ video_end_script

abbrev pub treatment_end_script : List Call
treatment_end_script = joined treatment ∷ monitoring_end_script

abbrev pub acquisition_end_script : List Call
acquisition_end_script = joined acquisition ∷ treatment_end_script

abbrev pub join_script : List Call
join_script = joined control ∷ acquisition_end_script

abbrev pub video_script : List Call
video_script = spawned video ∷ join_script

abbrev pub screen_script : List Call
screen_script = video_ready ∷ video_script

abbrev pub monitoring_script : List Call
monitoring_script = spawned monitoring ∷ screen_script

abbrev pub treatment_script : List Call
treatment_script = spawned treatment ∷ monitoring_script

abbrev pub acquisition_script : List Call
acquisition_script = spawned acquisition ∷ treatment_script

abbrev pub sound_script : List Call
sound_script = sound_ready ∷ acquisition_script

abbrev pub control_script : List Call
control_script = spawned control ∷ sound_script

abbrev pub event_script : List Call
event_script = event_created ∷ control_script

abbrev pub script : List Call
script = io_ready ∷ event_script

module _ (e : Events) (u : IoUtils) (a : AudioUtils) (v : VideoUtils)
    (ans : SystemAnswers e u a v) where
  -- What it takes for a call to get done, by what the system answers, from some state of the device.
  abbrev pub Succeeds : Call → Type 0
  Succeeds io_ready = (s : u.State) × ((u.init_ioctl ans.io s).0 ≡ 0)
  Succeeds event_created = (g : e.Group) × (ans.event ≡ some g)
  Succeeds sound_ready = (s : a.Sound) × ((a.init_audio ans.sound s).0 ≡ 0)
  Succeeds video_ready = (s : v.State) × ((v.init_video ans.screen s).0 ≡ success)
  Succeeds (spawned t) = ans.spawns t ≡ true
  Succeeds (joined t) = ans.ends t ≡ true
  Succeeds io_cleared = (s : u.State) × ((u.clear_ioctl s).0 ≡ true)
  Succeeds sound_cleared = Unit
  Succeeds video_cleared = Unit
  Succeeds samples_freed = Unit
  Succeeds frame_freed = Unit

  -- How `main` ends where a call is not done.
  abbrev pub Stops : Call → End → Type 0
  Stops io_ready end = (s : u.State) × ((u.init_ioctl ans.io s).0 ≢ 0) × (end ≡ exited)
  Stops event_created end = (ans.event ≡ none) × (end ≡ exited)
  Stops sound_ready end = (s : a.Sound) × ((a.init_audio ans.sound s).0 ≢ 0) × (end ≡ exited)
  Stops video_ready end =
      (s : v.State) × ((v.init_video ans.screen s).0 ≡ failure) × (end ≡ returned)
  Stops (spawned t) end = (ans.spawns t ≡ false) × (end ≡ exited)
  Stops (joined t) end = (ans.ends t ≡ false) × (end ≡ waits_for t)
  Stops io_cleared end = (s : u.State) × ((u.clear_ioctl s).0 ≡ false) × (end ≡ exited)
  Stops sound_cleared end = ⊥
  Stops video_cleared end = ⊥
  Stops samples_freed end = ⊥
  Stops frame_freed end = ⊥

  -- The calls that got done are those of a list, in its order, each with success, up to one that is not
  -- done, with the end for that one; or they are all of the list, and the program finishes.
  abbrev pub Goes : List Call → List Call → End → Type 0
  Goes [] [] end = end ≡ finished
  Goes [] (d ∷ ds) end = ⊥
  Goes (c ∷ cs) [] end = Stops c end
  Goes (c ∷ cs) (d ∷ ds) end = (d ≡ c) × Succeeds c × Goes cs ds end

  -- A run from a state goes through a list.
  abbrev pub Follows : List Call → World e u a v → End × World e u a v → Type 0
  Follows rest w r = (ds : List Call) × (r.1.calls ≡ w.calls ++ ds) × Goes rest ds r.0

  stops :
      (c : Call) (rest : List Call) (w w' : World e u a v) (end : End)
      → Stops c end
      → w'.calls ≡ w.calls
      → Follows (c ∷ rest) w (end, w')
  stops c rest w w' end how same = ([], same ∙ sym (append-nil w.calls), how)

  -- The same for the rest of the program, from any state.
  abbrev Runs : Rest e u a v → List Call → Type 0
  Runs k rest = (w : World e u a v) → Follows rest w (k w)

  goes_on :
      (c : Call) (rest : List Call) (w w' : World e u a v) (k : Rest e u a v)
      → Succeeds c
      → w'.calls ≡ w.calls ++ c ∷ []
      → Runs k rest
      → Follows (c ∷ rest) w (k w')
  goes_on c rest w w' k success' added runs =
      let (ds, calls, goes) = runs w' in
      (
        c ∷ ds,
        calls ∙ ap (λ cs. cs ++ ds) added ∙ append_assoc w.calls (c ∷ []) ds,
        (refl, success', goes),
      )

  spawn-Runs :
      (t : Task) (k : Rest e u a v) (rest : List Call)
      → Runs k rest
      → Runs (spawn e u a v ans t k) (spawned t ∷ rest)
  unfolding spawn
  spawn-Runs t k rest runs w = elim (Bool-cases (ans.spawns t)) [
    | inl starts ↦ rw starts (goes_on (spawned t) rest w _ k starts refl runs)
    | inr fails ↦ rw fails (stops (spawned t) rest w w exited (fails, refl) refl)
  ]

  join-Runs :
      (t : Task) (k : Rest e u a v) (rest : List Call)
      → Runs k rest
      → Runs (join e u a v ans t k) (joined t ∷ rest)
  unfolding join
  join-Runs t k rest runs w = elim (Bool-cases (ans.ends t)) [
    | inl ends ↦ rw ends (goes_on (joined t) rest w _ k ends refl runs)
    | inr goes ↦ rw goes (stops (joined t) rest w w (waits_for t) (goes, refl) refl)
  ]

  setup_io-Runs :
      (k : Rest e u a v) (rest : List Call)
      → Runs k rest
      → Runs (setup_io e u a v ans k) (io_ready ∷ rest)
  unfolding setup_io
  setup_io-Runs k rest runs w =
      let w' : World e u a v = record w { io = (u.init_ioctl ans.io w.io).1 } in
      elim (Bool-cases ((u.init_ioctl ans.io w.io).0 == 0)) [
        | inl zero' ↦
            rw zero'
              (goes_on io_ready rest w (done e u a v io_ready w') k (w.io, ground arith) refl runs)
        | inr other ↦
            rw other (stops io_ready rest w w' exited (w.io, (λ h. ground arith), refl) refl)
      ]

  event-Runs :
      (o : Option e.Group) (k : Rest e u a v) (rest : List Call)
      → ans.event ≡ o
      → Runs k rest
      → Runs (with_event e u a v ans o k) (event_created ∷ rest)
  event-Runs none k rest same runs w = stops event_created rest w w exited (same, refl) refl
  event-Runs (some g) k rest same runs w =
      goes_on event_created rest w
        (done e u a v event_created
          (record w { ctl = record (w.ctl) { control_event = g; running = true } }))
        k (g, same) refl runs

  setup_sound-Runs :
      (k : Rest e u a v) (rest : List Call)
      → Runs k rest
      → Runs (setup_sound e u a v ans k) (sound_ready ∷ rest)
  unfolding setup_sound
  setup_sound-Runs k rest runs w =
      let w' : World e u a v = record w { sound = (a.init_audio ans.sound w.sound).1 } in
      elim (Bool-cases ((a.init_audio ans.sound w.sound).0 == 0)) [
        | inl zero' ↦ rw zero' (goes_on sound_ready rest w _ k (w.sound, ground arith) refl runs)
        | inr other ↦
            rw other (stops sound_ready rest w w' exited (w.sound, (λ h. ground arith), refl) refl)
      ]

  video-Runs :
      (r : Code) (s screen' : v.State) (k : Rest e u a v) (rest : List Call)
      → (v.init_video ans.screen s).0 ≡ r
      → Runs k rest
      → Runs (with_video e u a v ans r screen' k) (video_ready ∷ rest)
  video-Runs failure s screen' k rest same runs w =
      stops video_ready rest w (record w { screen = screen' }) returned (s, same, refl) refl
  video-Runs success s screen' k rest same runs w =
      goes_on video_ready rest w _ k (s, same) refl runs

  setup_video-Runs :
      (k : Rest e u a v) (rest : List Call)
      → Runs k rest
      → Runs (setup_video e u a v ans k) (video_ready ∷ rest)
  unfolding setup_video
  setup_video-Runs k rest runs w =
      video-Runs (v.init_video ans.screen w.screen).0 w.screen (v.init_video ans.screen w.screen).1
        k rest refl runs w

  release-Runs : Runs (release e u a v ans) release_script
  unfolding release
  release-Runs w = elim (Bool-cases (u.clear_ioctl w.io).0) [
    | inl yes' ↦ rw yes' (
      release_script,
      simp append_assoc,
      (refl, (w.io, yes'), (refl, tt, (refl, tt, (refl, tt, (refl, tt, refl))))),
    )
    | inr no' ↦ rw no' (
        stops io_cleared (sound_cleared ∷ video_cleared ∷ samples_freed ∷ frame_freed ∷ []) w
          (record w { io = (u.clear_ioctl w.io).1 }) exited (w.io, no', refl) refl)
  ]

  finish-Runs : Runs (finish e u a v ans) join_script
  unfolding finish
  finish-Runs = join-Runs control _ acquisition_end_script (
      join-Runs acquisition _ treatment_end_script (
        join-Runs treatment _ monitoring_end_script (
          join-Runs monitoring _ video_end_script (join-Runs video _ release_script release-Runs))))

-- Whatever the system answers, and whatever the tasks do to what they share, `main` goes through one
-- script: each call that it got done had succeeded - for a task to be started or joined, the system had
-- started it, or it had come to its end - and it got done all calls before it; at the first call that does
-- not succeed it ends there, with an exit, a return or the wait that belongs to that call; and it returns
-- 0 only after the whole script, in which nothing is given back before all five tasks were joined.
pub main-Follows :
    (e : Events) (u : IoUtils) (a : AudioUtils) (v : VideoUtils) (ans : SystemAnswers e u a v)
    (w : World e u a v)
    → Follows e u a v ans script w (main e u a v ans w)
unfolding main
main-Follows e u a v ans = setup_io-Runs e u a v ans _ event_script (
    event-Runs e u a v ans ans.event _ control_script refl (
      spawn-Runs e u a v ans control _ sound_script (
        setup_sound-Runs e u a v ans _ acquisition_script (
          spawn-Runs e u a v ans acquisition _ treatment_script (
            spawn-Runs e u a v ans treatment _ monitoring_script (
              spawn-Runs e u a v ans monitoring _ screen_script (
                setup_video-Runs e u a v ans _ video_script
                  (spawn-Runs e u a v ans video _ join_script (finish-Runs e u a v ans)))))))))
