-- ===== src/Audio/Shutdown/Crash.antt =====
-- The end of the program while sound is on.
use ptr24_lab.Prelude.{
  ℕ, ◌<◌, ◌≡◌, ◌≢◌, ◌⊎◌, inl, inr, refl, sym, ◌∙◌, ap, Bool, true, false, List, [], ◌∷◌, none, some,
  arith,
}
use ptr24_lab.Control.Events.{Events, IsGroup}
use ptr24_lab.Control.Task.{CtlData, apply_inputs}
use ptr24_lab.Control.Laws.{apply_inputs-running}
use ptr24_lab.Audio.Acquisition.{Message, Mailbox}
use ptr24_lab.Audio.Treatment.{Treatment, treat_message}
use ptr24_lab.Audio.Shutdown.{
  testing, receiving, ended, crashed, SoundTasks, SoundStep, control, acquire, delete, skip, enter,
  leave, take, refused, SoundReach, here, later, sound_rank, step_down,
}

clash :
    (m' m : Mailbox) (x : Message) (q : List Message)
    → some m' ≡ some m
    → m'.queue ≡ []
    → m.queue ≡ x ∷ q
    → ⊥
clash m' m x q same empty head =
    let e : m' ≡ m = cc in
    let f : [] ≡ x ∷ q = sym empty ∙ ap (λ (b : Mailbox). b.queue) e ∙ head in cc

module _ (e : Events) (accepts : Bool) where
  -- The program has ended, and the treatment waits for a message that does not come, or has crashed.
  abbrev IsLost : SoundTasks e → Type 0
  IsLost s =
      (s.ctl.running ≡ false)
      × ((s.place ≡ crashed)
          ⊎ (s.place ≡ receiving)
            × ((s.mailbox ≡ none) ⊎ ((m : Mailbox) × (s.mailbox ≡ some m) × (m.queue ≡ []))))

  IsLost-Step : (s t : SoundTasks e) → IsLost s → SoundStep e accepts s t → IsLost t
  unfolding treat_message
  IsLost-Step s t (off, lost) (control keys word on) = absurd (ground arith)
  IsLost-Step s t (off, lost) (acquire r m at on) = absurd (ground arith)
  IsLost-Step s t (off, inl over) (delete m at off') = (off, inl over)
  IsLost-Step s t (off, inr (waits, box)) (delete m at off') = (off, inr (waits, inl refl))
  IsLost-Step s t (off, lost) (skip at on quiet) = (off, lost)
  IsLost-Step s t (off, lost) (enter at on loud) = absurd (ground arith)
  IsLost-Step s t (off, inl over) (leave at off') = absurd (ground arith)
  IsLost-Step s t (off, inr (waits, box)) (leave at off') = absurd (ground arith)
  IsLost-Step s t (off, inl over) (take room m x q at open' head) = absurd (ground arith)
  IsLost-Step s t (off, inr (waits, inl gone)) (take room m x q at open' head) =
      absurd (ground arith)
  IsLost-Step s t (off, inr (waits, inr (m', box, empty))) (take room m x q at open' head) =
      let same : some m' ≡ some m = sym box ∙ open' in absurd (clash m' m x q same empty head)
  IsLost-Step s t (off, lost) (refused room at gone) = (off, inl refl)

  IsLost-Reach : (s t : SoundTasks e) → IsLost s → SoundReach e accepts s t → IsLost t
  IsLost-Reach s t lost here = lost
  IsLost-Reach s t lost (later before step) = IsLost-Step _ t (IsLost-Reach s _ lost before) step

  lost_end : (s : SoundTasks e) → IsLost s → s.place ≢ ended
  lost_end s (off, inl over) at = ground arith
  lost_end s (off, inr (waits, box)) at = ground arith

  lost_goes :
      (s : SoundTasks e)
      → IsLost s
      → (s.place ≡ crashed) ⊎ ((t : SoundTasks e) × SoundStep e accepts s t)
  lost_goes s (off, inl over) = inl over
  lost_goes s (off, inr (waits, inl gone)) = inr (_, refused true waits gone)
  lost_goes s (off, inr (waits, inr (m, box, empty))) = inr (_, delete m box off)

-- With an event group whose flags are set and cleared one by one: if sound is on and the treatment is
-- about to wait at its empty mailbox, then a state can be reached, by the key that ends the program,
-- from which the treatment task never comes to its end: whatever steps are taken, it has crashed, or
-- a step is left that brings it nearer to that.
pub sound_shutdown_crashes :
    (e : Events) (group : IsGroup e) (accepts : Bool) (c : CtlData e) (m : Mailbox) (g : Treatment)
    (keys word : ℕ)
    → c.running ≡ true
    → c.audio_on ≡ true
    → m.queue ≡ []
    → keys ≢ 0
    → (s : SoundTasks e) × SoundReach e accepts
        (record { ctl = c; mailbox = some m; gathering = g; place = testing })
        s
      × ((t : SoundTasks e)
          → SoundReach e accepts s t
          → (t.place ≢ ended)
            × ((t.place ≡ crashed) ⊎ ((u : SoundTasks e) × SoundStep e accepts t u))
            × ((u : SoundTasks e)
                → SoundStep e accepts t u
                → sound_rank e accepts u < sound_rank e accepts t))
sound_shutdown_crashes e group accepts c m g keys word on loud empty down =
    let s : SoundTasks e = record {
      ctl = apply_inputs e keys word c;
      mailbox = some m;
      gathering = g;
      place = receiving;
    } in
    let off : (apply_inputs e keys word c).running ≡ false =
      ground (arith, apply_inputs-running e group keys word c) in
    let lost = IsLost-Reach e accepts s in
    let start : IsLost e accepts s = (off, inr (refl, inr (m, refl, empty))) in
    (
      s,
      later (later here (enter refl on loud)) (control keys word on),
      λ t reach.
          let l = lost t start reach in
          (
            lost_end e accepts t l,
            lost_goes e accepts t l,
            λ u step. (step_down e accepts t u l.0 step).0,
          ),
    )
