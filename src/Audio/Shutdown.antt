-- ===== src/Audio/Shutdown.antt =====
-- The end of the program for the sound tasks: the control task, `acquisition_task` and
-- `treatment_task_t_lol` side by side. A round of the control task or of the acquisition is one step;
-- the treatment is at the test of its loop, or in `rt_queue_receive`.
pub mod Ends
pub mod Crash
use ptr24_lab.Prelude.{
  ℕ, ◌+◌, ◌<◌, ◌≡◌, refl, ap, Bool, true, false, List, ◌∷◌, Option, none, some, Outcome, ok, fault,
  arith,
}
use ptr24_lab.Control.Events.{Events}
use ptr24_lab.Control.Task.{CtlData, apply_inputs}
use ptr24_lab.Wav.Files.{Read}
use ptr24_lab.Audio.Acquisition.{Message, unsized, Mailbox, acquisition_round, receive}
use ptr24_lab.Audio.Treatment.{Treatment, treat_message}

-- Where the treatment task is; the program has crashed where it does what C leaves undefined.
pub data Place : Type 0 where
  testing receiving ended crashed : Place

-- Where a round leads to: a transform with no room for its report ends the loop by the break, and each
-- other round goes back to the test.
abbrev pub past_report : Bool → Option (List ℕ) → Place
past_report room none = testing
past_report true (some left) = testing
past_report false (some left) = ended

module _ (e : Events) where
  -- With no mailbox once the queue was deleted.
  pub record SoundTasks : Type 0 where
    pub ctl : CtlData e
    pub mailbox : Option Mailbox
    pub gathering : Treatment
    pub place : Place

  -- After a message was copied in, and the rest of the round, by whether the queue of the reports has room.
  abbrev pub after_copy : Bool → Outcome Treatment → SoundTasks → SoundTasks
  after_copy room fault s = record s { place = crashed }
  after_copy room (ok g) s = record s { gathering = g; place = past_report room g.frame }

  module _ (accepts : Bool) where
    -- A receive that waits as the queue is deleted gives a negative result, which the task takes for
    -- the size of a message.
    pub data SoundStep (s : SoundTasks) : SoundTasks → Type 0 where
      control :
          (keys word : ℕ)
          → s.ctl.running ≡ true
          → SoundStep s (record s { ctl = apply_inputs e keys word s.ctl })
      acquire :
          (r : Read) (m : Mailbox)
          → s.mailbox ≡ some m
          → s.ctl.running ≡ true
          → SoundStep s (record s { mailbox = some (acquisition_round accepts r m) })
      delete :
          (m : Mailbox)
          → s.mailbox ≡ some m
          → s.ctl.running ≡ false
          → SoundStep s (record s { mailbox = none })
      skip : s.place ≡ testing → s.ctl.running ≡ true → s.ctl.audio_on ≡ false → SoundStep s s
      enter :
          s.place ≡ testing
          → s.ctl.running ≡ true
          → s.ctl.audio_on ≡ true
          → SoundStep s (record s { place = receiving })
      leave : s.place ≡ testing → s.ctl.running ≡ false → SoundStep s (record s { place = ended })
      take :
          (room : Bool) (m : Mailbox) (x : Message) (q : List Message)
          → s.place ≡ receiving
          → s.mailbox ≡ some m
          → m.queue ≡ x ∷ q
          → SoundStep s (
              after_copy room
                (treat_message x s.gathering)
                (record s { mailbox = some (receive m) }))
      refused :
          (room : Bool)
          → s.place ≡ receiving
          → s.mailbox ≡ none
          → SoundStep s (after_copy room (treat_message unsized s.gathering) s)

    pub data SoundReach (s : SoundTasks) : SoundTasks → Type 0 where
      here : SoundReach s s
      later : {t u : SoundTasks} → SoundReach s t → SoundStep t u → SoundReach s u

    abbrev steps_left : Place → ℕ
    steps_left receiving = 2
    steps_left testing = 1
    steps_left ended = 0
    steps_left crashed = 0

    abbrev to_delete : Option Mailbox → ℕ
    to_delete none = 0
    to_delete (some m) = 1

    -- How far the two tasks are from their end, once the program has ended.
    abbrev pub sound_rank : SoundTasks → ℕ
    sound_rank s = steps_left s.place + to_delete s.mailbox

    report_rank : (room : Bool) (frame : Option (List ℕ)) → steps_left (past_report room frame) < 2
    report_rank room none = omega arith
    report_rank true (some left) = omega arith
    report_rank false (some left) = omega arith

    copied_rank :
        (room : Bool) (r : Outcome Treatment) (s : SoundTasks)
        → (steps_left (after_copy room r s).place < 2)
          × ((after_copy room r s).mailbox ≡ s.mailbox)
          × ((after_copy room r s).ctl ≡ s.ctl)
    copied_rank room fault s = (omega arith, refl, refl)
    copied_rank room (ok g) s = (report_rank room g.frame, refl, refl)

    pub step_down :
        (s t : SoundTasks)
        → s.ctl.running ≡ false
        → SoundStep s t
        → (sound_rank t < sound_rank s) × (t.ctl ≡ s.ctl)
    step_down s t off (control keys word on) = absurd (ground arith)
    step_down s t off (acquire r m at on) = absurd (ground arith)
    step_down s t off (delete m at off') = (rw at (omega arith), refl)
    step_down s t off (skip at on quiet) = absurd (ground arith)
    step_down s t off (enter at on loud) = absurd (ground arith)
    step_down s t off (leave at off') = (rw at (omega arith), refl)
    step_down s t off (take room m x q at open' head) =
        let s' : SoundTasks = record s { mailbox = some (receive m) } in
        let (less, same, ctl) = copied_rank room (treat_message x s.gathering) s' in
        (omega (arith, less, ap to_delete same, ap to_delete open', ap steps_left at), ctl)
    step_down s t off (refused room at gone) =
        let (less, same, ctl) = copied_rank room (treat_message unsized s.gathering) s in
        (omega (arith, less, ap to_delete same, ap steps_left at), ctl)
