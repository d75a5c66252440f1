-- ===== src/Audio/Processor/Yields.antt =====
-- The treatment of audio_setup.c with sound on: how it comes to let other tasks have the processor.
use ptr24_lab.Prelude.{
  ℕ, ◌+◌, ◌*◌, ◌<◌, ◌≡◌, ◌⊎◌, inl, inr, refl, ap, true, false, Bool, List, [], ◌∷◌, Option, some,
  none, Outcome, ok, fault, length, arith,
}
use ptr24_lab.Control.Events.{Events}
use ptr24_lab.Audio.Acquisition.{Message, Mailbox, take_first, receive}
use ptr24_lab.Audio.Treatment.{Treatment, treat_message}
use ptr24_lab.Audio.Shutdown.{
  Place, testing, receiving, ended, crashed, SoundTasks, SoundStep, control, acquire, delete, skip,
  enter, leave, take, refused, past_report, after_copy,
}
use ptr24_lab.Main.Run.{treatment}
use ptr24_lab.Audio.Processor.{mover, CanWait}

module _ (e : Events) (accepts : Bool) where
  abbrev at_test : Place → ℕ
  at_test testing = 1
  at_test receiving = 0
  at_test ended = 0
  at_test crashed = 0

  abbrev queued : Option Mailbox → ℕ
  queued none = 0
  queued (some m) = length m.queue

  -- How many steps the treatment can take on its own, at most.
  abbrev pub own_steps : SoundTasks e → ℕ
  own_steps s = 2 * queued s.mailbox + at_test s.place

  -- The treatment is in its loop, and the queue is there.
  abbrev pub InLoop : SoundTasks e → Type 0
  InLoop s = ((s.place ≡ testing) ⊎ (s.place ≡ receiving)) × (m : Mailbox) × (s.mailbox ≡ some m)

  receive-queue :
      (m : Mailbox) (x : Message) (q : List Message) → m.queue ≡ x ∷ q → (receive m).queue ≡ q
  unfolding receive take_first
  receive-queue m x q head = rw head refl

  -- Past the break: a transform was done, and there was no room for its report.
  abbrev pub Broke : SoundTasks e → Type 0
  Broke t = (t.place ≡ ended) × (left : List ℕ) × ((t.gathering).frame ≡ some left)

  -- A step of its own that stays in the loop.
  abbrev Goes : SoundTasks e → SoundTasks e → Type 0
  Goes s t = (own_steps t < own_steps s) × (t.ctl ≡ s.ctl) × InLoop t

  reported :
      (room : Bool) (frame : Option (List ℕ))
      → (past_report room frame ≡ testing)
        ⊎ ((past_report room frame ≡ ended) × (left : List ℕ) × (frame ≡ some left))
  reported room none = inl refl
  reported true (some left) = inl refl
  reported false (some left) = inr (refl, left, refl)

  copied :
      (room : Bool) (r : Outcome Treatment) (s : SoundTasks e) (m : Mailbox) (x : Message)
      (q : List Message)
      → s.mailbox ≡ some m
      → m.queue ≡ x ∷ q
      → s.place ≡ receiving
      → ((after_copy e room r (record s { mailbox = some (receive m) })).place ≡ crashed)
        ⊎ Broke (after_copy e room r (record s { mailbox = some (receive m) }))
        ⊎ Goes s (after_copy e room r (record s { mailbox = some (receive m) }))
  copied room fault s m x q box head at = inl refl
  copied room (ok g) s m x q box head at = elim (reported room g.frame) [
    | inr broke ↦ inr (inl broke)
    | inl back ↦ inr (
        inr (
          omega (
            arith,
            ap queued box,
            ap at_test at,
            ap at_test back,
            ap length head,
            ap length (receive-queue m x q head),
          ),
          refl,
          (inl back, receive m, refl),
        ))
  ]

  own_step :
      (s t : SoundTasks e)
      → s.ctl.running ≡ true
      → s.ctl.audio_on ≡ true
      → InLoop s
      → (step : SoundStep e accepts s t) → mover e accepts step ≡ treatment
      → (t.place ≡ crashed) ⊎ Broke t ⊎ Goes s t
  own_step s t on loud h (control keys word on') mine = absurd (ground arith)
  own_step s t on loud h (acquire r m box on') mine = absurd (ground arith)
  own_step s t on loud h (delete m box off) mine = absurd (ground arith)
  own_step s t on loud h (skip at on' quiet) mine = absurd (ground arith)
  own_step s t on loud (at', m, box) (enter at on' loud') mine =
      inr (inr (omega (arith, ap at_test at), refl, (inr refl, m, box)))
  own_step s t on loud h (leave at off) mine = absurd (ground arith)
  own_step s t on loud h (take room m x q at box head) mine =
      copied room (treat_message x s.gathering) s m x q box head at
  own_step s t on loud (at', m, box) (refused room at gone) mine = absurd (ground arith)

  takes :
      (s : SoundTasks e) (m : Mailbox) (queue : List Message)
      → s.place ≡ receiving
      → s.mailbox ≡ some m
      → m.queue ≡ queue
      → CanWait e accepts treatment s
        ⊎ ((t : SoundTasks e) × (step : SoundStep e accepts s t) × (mover e accepts step
              ≡ treatment))
  takes s m [] at box head = inl (inl (at, m, box, head))
  takes s m (x ∷ q) at box head = inr (_, take true m x q at box head, refl)

  -- While the program goes on with sound on, the queue is there, and the treatment is in its loop: it may
  -- let another task have the processor, or it can take a step; and each of its steps crashes, or leaves
  -- the loop after a transform, as it does where there is no room for the report, or keeps all of this
  -- and lowers the number of steps that it can take before it waits.
  pub sound_on_yields :
      (s : SoundTasks e)
      → s.ctl.running ≡ true
      → s.ctl.audio_on ≡ true
      → InLoop s
      → (CanWait e accepts treatment s
          ⊎ ((t : SoundTasks e) × (step : SoundStep e accepts s t) × (mover e accepts step
                ≡ treatment)))
        × ((t : SoundTasks e) (step : SoundStep e accepts s t)
            → mover e accepts step ≡ treatment
            → (t.place ≡ crashed)
              ⊎ Broke t
              ⊎ ((own_steps t < own_steps s) × (t.ctl ≡ s.ctl) × InLoop t))
  sound_on_yields s on loud (at, m, box) = (
    elim at [
      | inl top ↦ inr (_, enter top on loud, refl)
      | inr waits ↦ takes s m m.queue waits box refl
    ],
    λ t step mine. own_step s t on loud (at, m, box) step mine,
  )
