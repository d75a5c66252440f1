-- ===== src/Video/Shutdown.antt =====
-- The control task and `video_task` side by side, down to what the end of the program waits for: `main`
-- joins `video_task`. A round of the control task is one step, since tasks of the same priority do not
-- interrupt each other.
use ptr24_lab.Prelude.{ℕ, ◌<◌, ◌≡◌, ◌≢◌, ◌⊎◌, inl, inr, refl, ◌∙◌, true, false, arith}
use ptr24_lab.Control.Events.{Events, IsGroup, video_running}
use ptr24_lab.Control.Task.{CtlData, apply_inputs}
use ptr24_lab.Control.Laws.{switch_up, apply_inputs-Shows, apply_inputs-running}

-- Where `video_task` is: at the test of its loop, in the wait for VIDEO_RUNNING, past it, or done.
pub data Stage : Type 0 where
  top waiting busy ended : Stage

module _ (e : Events) where
  pub record System : Type 0 where
    pub ctl : CtlData e
    pub video : Stage

  pub data Step (s : System) : System → Type 0 where
    control :
        (keys word : ℕ)
        → s.ctl.running ≡ true
        → Step s (record { ctl = apply_inputs e keys word s.ctl; video = s.video })
    enter :
        s.video ≡ top
        → s.ctl.running ≡ true
        → s.ctl.video_on ≡ true
        → Step s (record { ctl = s.ctl; video = busy })
    wait :
        s.video ≡ top
        → s.ctl.running ≡ true
        → s.ctl.video_on ≡ false
        → Step s (record { ctl = s.ctl; video = waiting })
    leave : s.video ≡ top → s.ctl.running ≡ false → Step s (record { ctl = s.ctl; video = ended })
    wake :
        s.video ≡ waiting
        → e.is_set s.ctl.control_event video_running ≡ true
        → Step s (record { ctl = s.ctl; video = busy })
    again : s.video ≡ busy → Step s (record { ctl = s.ctl; video = top })

  pub data Reach (s : System) : System → Type 0 where
    here : Reach s s
    later : {t u : System} → Reach s t → Step t u → Reach s u

  -- The program has ended, and the video waits for a flag that is down.
  abbrev pub Stuck : System → Type 0
  Stuck s =
      (s.video ≡ waiting)
      × (s.ctl.running ≡ false)
      × (e.is_set s.ctl.control_event video_running ≡ false)

  Stuck-Step : (s t : System) → Stuck s → Step s t → Stuck t
  Stuck-Step s t (w, r, f) (control keys word on) = absurd (ground arith)
  Stuck-Step s t (w, r, f) (enter at on v) = absurd (ground arith)
  Stuck-Step s t (w, r, f) (wait at on v) = absurd (ground arith)
  Stuck-Step s t (w, r, f) (leave at off) = absurd (ground arith)
  Stuck-Step s t (w, r, f) (wake at set) = absurd (ground arith)
  Stuck-Step s t (w, r, f) (again at) = absurd (ground arith)

  Stuck-Reach : (s t : System) → Stuck s → Reach s t → Stuck t
  Stuck-Reach s t h here = h
  Stuck-Reach s t h (later before step) = Stuck-Step _ t (Stuck-Reach s _ h before) step

  -- How far `video_task` is from its end once the program has ended.
  abbrev rank : Stage → ℕ
  rank ended = 0
  rank top = 1
  rank busy = 2
  rank waiting = 3

  -- Once the program has ended with the video switched on, `video_task` has ended or can take a step,
  -- and each step brings it nearer to its end and leaves the shared data as they are.
  shutdown_ends :
      (s : System)
      → s.ctl.running ≡ false
      → e.is_set s.ctl.control_event video_running ≡ true
      → ((s.video ≡ ended) ⊎ ((t : System) × Step s t))
        × ((t : System) → Step s t → (rank t.video < rank s.video) × (t.ctl ≡ s.ctl))
  shutdown_ends s off set = (can_go s.video refl, goes)
    where
      can_go : (v : Stage) → s.video ≡ v → (s.video ≡ ended) ⊎ ((t : System) × Step s t)
      can_go ended at = inl at
      can_go top at = inr (_, leave at off)
      can_go busy at = inr (_, again at)
      can_go waiting at = inr (_, wake at set)

      goes : (t : System) → Step s t → (rank t.video < rank s.video) × (t.ctl ≡ s.ctl)
      goes t (control keys word on) = absurd (ground arith)
      goes t (enter at on v) = absurd (ground arith)
      goes t (wait at on v) = absurd (ground arith)
      goes t (leave at off') = (rw at (omega arith), refl)
      goes t (wake at set') = (rw at (omega arith), refl)
      goes t (again at) = (rw at (omega arith), refl)

-- With an event group whose flags are set and cleared one by one: if the video is off when the
-- program starts, and a key ends it in a round in which switch 1 is down, then a state can be
-- reached from which `video_task` waits for ever, whatever steps are taken.
pub shutdown_hangs :
    (e : Events) (group : IsGroup e) (c : CtlData e) (keys word : ℕ)
    → c.running ≡ true
    → c.video_on ≡ false
    → keys ≢ 0
    → switch_up 1 word ≡ false
    → (s : System e) × Reach e (record { ctl = c; video = top }) s
      × ((t : System e) → Reach e s t → t.video ≡ waiting)
shutdown_hangs e group c keys word on off down up =
    let s : System e = record { ctl = apply_inputs e keys word c; video = waiting } in
    let stopped : (apply_inputs e keys word c).running ≡ false =
      ground (arith, apply_inputs-running e group keys word c) in
    let flag = (apply_inputs-Shows e group keys word c).video_flag ∙ up in
    (
      s,
      later (later here (wait refl on off)) (control keys word on),
      λ t reach. (Stuck-Reach e s t (refl, stopped, flag) reach).0,
    )
