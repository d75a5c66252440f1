-- ===== src/Audio/Shutdown/Ends.antt =====
-- That the sound tasks come to an end, and from where they can crash.
use ptr24_lab.Prelude.{
  ◌<◌, ◌≡◌, ◌≢◌, ◌⊎◌, inl, inr, refl, true, Bool, false, Option, none, some, arith,
}
use ptr24_lab.Control.Events.{Events}
use ptr24_lab.Audio.Acquisition.{Mailbox}
use ptr24_lab.Audio.Shutdown.{
  Place, testing, receiving, ended, crashed, SoundTasks, SoundStep, control, acquire, delete, skip,
  enter, leave, take, refused, SoundReach, here, later, sound_rank, step_down,
}

module _ (e : Events) (accepts : Bool) where
  -- What is left to do.
  abbrev IsOver : SoundTasks e → Type 0
  IsOver s = (s.place ≡ crashed) ⊎ ((s.place ≡ ended) × (s.mailbox ≡ none))

  -- The program has ended, and the treatment waits for no message.
  abbrev IsQuiet : SoundTasks e → Type 0
  IsQuiet s = (s.ctl.running ≡ false) × ((s.place ≡ testing) ⊎ (s.place ≡ ended))

  IsQuiet-Step : (s t : SoundTasks e) → IsQuiet s → SoundStep e accepts s t → IsQuiet t
  IsQuiet-Step s t (off, rest) (control keys word on) = absurd (ground arith)
  IsQuiet-Step s t (off, rest) (acquire r m at on) = absurd (ground arith)
  IsQuiet-Step s t (off, rest) (delete m at off') = (off, rest)
  IsQuiet-Step s t (off, rest) (skip at on silent) = (off, rest)
  IsQuiet-Step s t (off, rest) (enter at on loud) = absurd (ground arith)
  IsQuiet-Step s t (off, rest) (leave at off') = (off, inr refl)
  IsQuiet-Step s t (off, rest) (take room m x q at open' head) = absurd (ground (arith, rest, at))
  IsQuiet-Step s t (off, rest) (refused room at gone) = absurd (ground (arith, rest, at))

  IsQuiet-Reach : (s t : SoundTasks e) → IsQuiet s → SoundReach e accepts s t → IsQuiet t
  IsQuiet-Reach s t quiet here = quiet
  IsQuiet-Reach s t quiet (later before step) =
      IsQuiet-Step _ t (IsQuiet-Reach s _ quiet before) step

  quiet_safe : (t : SoundTasks e) → IsQuiet t → t.place ≢ crashed
  quiet_safe t (off, rest) at = ground (arith, rest, at)

  -- From where the treatment can crash.
  crash_source :
      (s t : SoundTasks e)
      → s.ctl.running ≡ false
      → SoundReach e accepts s t
      → (t.place ≢ crashed) ⊎ ((s.place ≡ crashed) ⊎ (s.place ≡ receiving))
  crash_source s t off reach = by_place s.place refl
    where
      by_place :
          (p : Place)
          → s.place ≡ p
          → (t.place ≢ crashed) ⊎ ((s.place ≡ crashed) ⊎ (s.place ≡ receiving))
      by_place testing at = inl (quiet_safe t (IsQuiet-Reach s t (off, inl at) reach))
      by_place ended at = inl (quiet_safe t (IsQuiet-Reach s t (off, inr at) reach))
      by_place receiving at = inr (inr at)
      by_place crashed at = inr (inl at)

  -- Once the program has ended, the two tasks are over, or one of them can take a step; each step
  -- brings them nearer to their end, and leaves the shared data as they are; and in no state that is
  -- reached has the treatment crashed, unless it had crashed or waited for a message as the program
  -- ended.
  pub sound_shutdown_ends :
      (s : SoundTasks e)
      → s.ctl.running ≡ false
      → (IsOver s ⊎ ((t : SoundTasks e) × SoundStep e accepts s t))
        × ((t : SoundTasks e)
            → SoundStep e accepts s t
            → (sound_rank e accepts t < sound_rank e accepts s) × (t.ctl ≡ s.ctl))
        × ((t : SoundTasks e)
            → SoundReach e accepts s t
            → (t.place ≢ crashed) ⊎ ((s.place ≡ crashed) ⊎ (s.place ≡ receiving)))
  sound_shutdown_ends s off = (
    can_go s.place s.mailbox refl refl,
    λ t step. step_down e accepts s t off step,
    λ t reach. crash_source s t off reach,
  )
    where
      can_go :
          (p : Place) (m : Option Mailbox)
          → s.place ≡ p
          → s.mailbox ≡ m
          → IsOver s ⊎ ((t : SoundTasks e) × SoundStep e accepts s t)
      can_go crashed m at box = inl (inl at)
      can_go ended none at box = inl (inr (at, box))
      can_go testing none at box = inr (_, leave at off)
      can_go receiving none at box = inr (_, refused true at box)
      can_go p (some m) at box = inr (_, delete m box off)
