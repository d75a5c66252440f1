-- ===== src/Audio/Processor.antt =====
-- The sound tasks on one processor, by their priorities: a task keeps the processor until it waits, or
-- until one of a higher priority takes it, since tasks of the same priority do not interrupt each other.
pub mod Yields
use ptr24_lab.Prelude.{
  ℕ, ◌<◌, ◌≤◌, ap, ◌≡◌, ◌⊎◌, inl, inr, refl, sym, ◌∙◌, true, false, Bool, [], Option, some, arith,
}
use std.Path.{subst}
use ptr24_lab.Control.Events.{Events, IsGroup}
use ptr24_lab.Control.Task.{CtlData, apply_inputs}
use ptr24_lab.Control.Laws.{switch_up, apply_inputs-Shows, apply_inputs-running}
use ptr24_lab.Audio.Acquisition.{Mailbox}
use ptr24_lab.Audio.Treatment.{Treatment}
use ptr24_lab.Audio.Shutdown.{
  testing, receiving, ended, crashed, SoundTasks, SoundStep, control, acquire, delete, skip, enter,
  leave, take, refused,
}
use ptr24_lab.Main.Run.{Task, acquisition, treatment, monitoring, video}
use ptr24_lab.Main.Schedule.{priority}

module _ (e : Events) (accepts : Bool) where
  -- The task that takes a step.
  abbrev pub mover : {s t : SoundTasks e} → SoundStep e accepts s t → Task
  mover (control keys word on) = Task.control
  mover (acquire r m box on) = acquisition
  mover (delete m box off) = acquisition
  mover (skip at on quiet) = treatment
  mover (enter at on loud) = treatment
  mover (leave at off) = treatment
  mover (take room m x q at box head) = treatment
  mover (refused room at gone) = treatment

  -- Whether a task may wait. The treatment does only in `rt_queue_receive`, at an empty queue, or past its
  -- end; the others wait for their periods and queues.
  abbrev pub CanWait : Task → SoundTasks e → Type 0
  CanWait Task.control s = Unit
  CanWait acquisition s = Unit
  CanWait treatment s =
      ((s.place ≡ receiving) × (m : Mailbox) × (s.mailbox ≡ some m) × (m.queue ≡ []))
      ⊎ (s.place ≡ ended)
      ⊎ (s.place ≡ crashed)
  CanWait monitoring s = Unit
  CanWait video s = Unit

  -- The task that has the processor, and the state of the sound tasks.
  pub data CpuStep (c : Task) (s : SoundTasks e) : Task → SoundTasks e → Type 0 where
    works : {t : SoundTasks e} → (step : SoundStep e accepts s t) → mover step ≡ c → CpuStep c s c t
    apart : (c ≡ monitoring) ⊎ (c ≡ video) → CpuStep c s c s
    passes : (d : Task) → CanWait c s → CpuStep c s d s
    preempted : (d : Task) → priority c < priority d → CpuStep c s d s

  pub data CpuReach (c : Task) (s : SoundTasks e) : Task → SoundTasks e → Type 0 where
    here : CpuReach c s c s
    later :
        {d f : Task} {t u : SoundTasks e} → CpuReach c s d t → CpuStep d t f u → CpuReach c s f u

  -- The treatment is at its test, with sound off.
  record Spins (s : SoundTasks e) : Type 0 where
    at : s.place ≡ testing
    on : s.ctl.running ≡ true
    quiet : s.ctl.audio_on ≡ false

  work-Spins :
      (s t : SoundTasks e)
      → Spins s
      → (step : SoundStep e accepts s t) → mover step ≡ treatment
      → t ≡ s
  work-Spins s t h (control keys word on) mine = absurd (ground arith)
  work-Spins s t h (acquire r m box on) mine = absurd (ground arith)
  work-Spins s t h (delete m box off) mine = absurd (ground arith)
  work-Spins s t h (skip at on quiet) mine = refl
  work-Spins s t h (enter at on loud) mine = absurd (ground (arith, h.quiet))
  work-Spins s t h (leave at off) mine = absurd (ground (arith, h.on))
  work-Spins s t h (take room m x q at box head) mine = absurd (ground (arith, h.at))
  work-Spins s t h (refused room at gone) mine = absurd (ground (arith, h.at))

  no_higher : (d : Task) → priority d ≤ priority treatment
  no_higher Task.control = omega arith
  no_higher acquisition = omega arith
  no_higher treatment = omega arith
  no_higher monitoring = omega arith
  no_higher video = omega arith

  turn-Spins :
      (c : Task) (s : SoundTasks e) (d : Task) (t : SoundTasks e)
      → Spins s
      → c ≡ treatment
      → CpuStep c s d t
      → (d ≡ treatment) × (t ≡ s)
  turn-Spins c s d t h mine (works step moves) = (mine, work-Spins s t h step (moves ∙ mine))
  turn-Spins c s d t h mine (apart (inl other)) = absurd (ground arith)
  turn-Spins c s d t h mine (apart (inr other)) = absurd (ground arith)
  turn-Spins treatment s d t h mine (passes d' (inl (at, m, box, empty))) =
      absurd (ground (arith, h.at))
  turn-Spins treatment s d t h mine (passes d' (inr (inl over))) = absurd (ground (arith, h.at))
  turn-Spins treatment s d t h mine (passes d' (inr (inr over))) = absurd (ground (arith, h.at))
  turn-Spins Task.control s d t h mine (passes d' may) = absurd (ground arith)
  turn-Spins acquisition s d t h mine (passes d' may) = absurd (ground arith)
  turn-Spins monitoring s d t h mine (passes d' may) = absurd (ground arith)
  turn-Spins video s d t h mine (passes d' may) = absurd (ground arith)
  turn-Spins c s d t h mine (preempted d' less) =
      absurd (omega (arith, less, no_higher d, ap priority mine))

  reach-Spins :
      (s : SoundTasks e) (d : Task) (t : SoundTasks e)
      → Spins s
      → CpuReach treatment s d t
      → (d ≡ treatment) × (t ≡ s)
  reach-Spins s d t h here = (refl, refl)
  reach-Spins s d t h (later before step) =
      let (mine, same) = reach-Spins s _ _ h before in
      let (mine', same') = turn-Spins _ _ d t (subst Spins (sym same) h) mine step in
      (mine', same' ∙ same)

-- With an event group whose flags are set and cleared one by one, on one processor: if the treatment is
-- at its test as the control task runs, no key is down and switch 0 is down, then a state can be reached
-- in which the program goes on and the treatment has the processor; it can take a step there, and
-- whatever steps are taken from there, it keeps the processor and nothing changes any more.
pub sound_off_spins :
    (e : Events) (group : IsGroup e) (accepts : Bool) (ctl : CtlData e) (box : Option Mailbox)
    (g : Treatment) (word : ℕ)
    → ctl.running ≡ true
    → switch_up 0 word ≡ false
    → (s : SoundTasks e) × CpuReach e accepts Task.control
        (record { ctl = ctl; mailbox = box; gathering = g; place = testing })
        treatment
        s
      × (s.ctl.running ≡ true)
      × CpuStep e accepts treatment s treatment s
      × ((d : Task) (t : SoundTasks e)
          → CpuReach e accepts treatment s d t
          → (d ≡ treatment) × (t ≡ s))
sound_off_spins e group accepts ctl box g word on down =
    let s : SoundTasks e = record {
      ctl = apply_inputs e 0 word ctl;
      mailbox = box;
      gathering = g;
      place = testing;
    } in
    let on' : s.ctl.running ≡ true = ground (arith, apply_inputs-running e group 0 word ctl) in
    let quiet : s.ctl.audio_on ≡ false = (apply_inputs-Shows e group 0 word ctl).audio ∙ down in
    (
      s,
      later (later here (works (control 0 word on) refl)) (passes treatment tt),
      on',
      works (skip refl on' quiet) refl,
      λ d t. reach-Spins e accepts s d t (record { at = refl; on = on'; quiet = quiet }),
    )
