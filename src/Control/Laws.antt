-- ===== src/Control/Laws.antt =====
-- What the control task makes of the switches and the keys.
use Prim.Native.Nat.{bit_and}
use ptr24_lab.Prelude.{
  ℕ, ◌/◌, ◌%◌, ◌^◌, ◌≡◌, ◌≢◌, refl, Bool, true, false, ◌&&◌, List, [], ◌∷◌, ◌++◌, ok, ◌==◌, arith,
  ◌∙◌,
}
use ptr24_lab.Prelude.Bits.{bit_or-zero, bit_and-bit_0, bit_and-bit_1, bit_and-bit_8, bit_and-bit_9}
use ptr24_lab.Control.Events.{
  Events, IsGroup, audio_running, video_running, greyscale_activation, convolution_activation,
  IsFlag,
}
use ptr24_lab.Control.Task.{
  CtlData, truth, put_flag, apply_inputs, control_round, ioctl_ctl_task, switch_0, switch_1,
  switch_8, switch_9,
}
use ptr24_lab.Io.Board.{mmap}
use ptr24_lab.Io.Interface.{IoUtils, IsRegisterFile, Reg, keys, switches}

-- Whether switch `k` is up, in the word of the switches.
abbrev pub switch_up : ℕ → ℕ → Bool
switch_up k word = word / 2 ^ k % 2 == 1

truth-switch_0 : (s : ℕ) → truth (bit_and s switch_0) ≡ switch_up 0 s
truth-switch_0 s = ground (arith, bit_and-bit_0 s)

truth-switch_1 : (s : ℕ) → truth (bit_and s switch_1) ≡ switch_up 1 s
truth-switch_1 s = ground (arith, bit_and-bit_1 s)

truth-switch_8 : (s : ℕ) → truth (bit_and s switch_8) ≡ switch_up 8 s
truth-switch_8 s = ground (arith, bit_and-bit_8 s)

truth-switch_9 : (s : ℕ) → truth (bit_and s switch_9) ≡ switch_up 9 s
truth-switch_9 s = ground (arith, bit_and-bit_9 s)

module _ (e : Events) where
  -- The state shows the word of the switches: switch 0 for audio, 1 for video, 8 for grey, 9 for
  -- the edges.
  pub record Shows (word : ℕ) (c : CtlData e) : Type 0 where
    pub audio : c.audio_on ≡ switch_up 0 word
    pub video : c.video_on ≡ switch_up 1 word
    pub audio_flag : e.is_set c.control_event audio_running ≡ switch_up 0 word
    pub video_flag : e.is_set c.control_event video_running ≡ switch_up 1 word
    pub greyscale_flag : e.is_set c.control_event greyscale_activation ≡ switch_up 8 word
    pub convolution_flag : e.is_set c.control_event convolution_activation ≡ switch_up 9 word

module _ (e : Events) (group : IsGroup e) where
  put_flag_self : (on : Bool) (m : ℕ) (g : e.Group) → IsFlag m → e.is_set (put_flag e on m g) m ≡ on
  put_flag_self true m g f = group.set_self g m f
  put_flag_self false m g f = group.clear_self g m f

  put_flag_other :
      (on : Bool) (m n : ℕ) (g : e.Group)
      → IsFlag m
      → IsFlag n
      → m ≢ n
      → e.is_set (put_flag e on m g) n ≡ e.is_set g n
  put_flag_other true m n g f f' ne = group.set_other g m n f f' ne
  put_flag_other false m n g f f' ne = group.clear_other g m n f f' ne

  pub apply_inputs-Shows : (k s : ℕ) (c : CtlData e) → Shows e s (apply_inputs e k s c)
  unfolding apply_inputs
  apply_inputs-Shows k s c = record {
    audio = truth-switch_0 s;
    video = truth-switch_1 s;
    audio_flag =
        put_flag_other (truth (bit_and s switch_9)) 8 1 _ (omega arith) (omega arith) (omega arith)
        ∙ put_flag_other (truth (bit_and s switch_8)) 4 1 _ (omega arith) (omega arith)
            (omega arith)
        ∙ put_flag_other (truth (bit_and s switch_1)) 2 1 _ (omega arith) (omega arith)
            (omega arith)
        ∙ put_flag_self (truth (bit_and s switch_0)) 1 _ (omega arith)
        ∙ truth-switch_0 s;
    video_flag =
        put_flag_other (truth (bit_and s switch_9)) 8 2 _ (omega arith) (omega arith) (omega arith)
        ∙ put_flag_other (truth (bit_and s switch_8)) 4 2 _ (omega arith) (omega arith)
            (omega arith)
        ∙ put_flag_self (truth (bit_and s switch_1)) 2 _ (omega arith)
        ∙ truth-switch_1 s;
    greyscale_flag =
        put_flag_other (truth (bit_and s switch_9)) 8 4 _ (omega arith) (omega arith) (omega arith)
        ∙ put_flag_self (truth (bit_and s switch_8)) 4 _ (omega arith)
        ∙ truth-switch_8 s;
    convolution_flag =
        put_flag_self (truth (bit_and s switch_9)) 8 _ (omega arith) ∙ truth-switch_9 s;
  }

  pub apply_inputs-running :
      (k s : ℕ) (c : CtlData e) → (apply_inputs e k s c).running ≡ (k == 0 && c.running)
  unfolding apply_inputs
  apply_inputs-running k s c = ground (arith, bit_or-zero k)

-- The control task over any registers that are as io_utils.h promises.
module _ (u : IoUtils) (Ready : u.State → Type 0) (view : u.State → Reg → ℕ) where
  -- Rounds with the registers set up and no key down.
  abbrev pub Quiet : List u.State → Type 0
  Quiet [] = Unit
  Quiet (io ∷ later) = Ready io × (view io keys ≡ 0) × Quiet later

module _ (e : Events) (group : IsGroup e) (u : IoUtils) (Ready : u.State → Type 0)
    (view : u.State → Reg → ℕ) (file : IsRegisterFile u mmap Ready view) where
  round_lem :
      (io : u.State) (c : CtlData e)
      → Ready io
      → control_round e u io c ≡ ok (apply_inputs e (view io keys) (view io switches) c)
  unfolding control_round
  round_lem io c valid =
      rw (file.read-view io keys valid tt, file.read-view io switches valid tt) refl

  -- With an event group whose flags are set and cleared one by one, in a round with the registers
  -- set up, the task returns no fault; the two flags of the shared record and the four of the
  -- event group then show the switches, whatever they showed before; and the program goes on
  -- running exactly if it was and no key is down.
  pub control_round_lem :
      (io : u.State) (c : CtlData e)
      → Ready io
      → (next : CtlData e) × (control_round e u io c ≡ ok next)
        × Shows e (view io switches) next
        × (next.running ≡ (view io keys == 0 && c.running))
  control_round_lem io c valid = (
    apply_inputs e (view io keys) (view io switches) c,
    round_lem io c valid,
    apply_inputs-Shows e group (view io keys) (view io switches) c,
    apply_inputs-running e group (view io keys) (view io switches) c,
  )

  task_step :
      (io : u.State) (later : List u.State) (c : CtlData e)
      → c.running ≡ true
      → Ready io
      → ioctl_ctl_task e u (io ∷ later) c
        ≡ ioctl_ctl_task e u later (apply_inputs e (view io keys) (view io switches) c)
  unfolding ioctl_ctl_task
  task_step io later c on valid = simp (on, round_lem io c valid)

  task_done :
      (later : List u.State) (c : CtlData e) → c.running ≡ false → ioctl_ctl_task e u later c ≡ ok c
  unfolding ioctl_ctl_task
  task_done [] c off = refl
  task_done (io ∷ later) c off = simp off

  -- With an event group whose flags are set and cleared one by one and a task that is running,
  -- after rounds with the registers set up and no key down, the first such round in which any key
  -- of the board is down ends the task, and the switches of that round are the ones that the
  -- shared state shows; what the board does later is not read.
  pub ioctl_ctl_task_stops :
      (before : List u.State) (io : u.State) (later : List u.State) (c : CtlData e)
      → Quiet u Ready view before
      → c.running ≡ true
      → Ready io
      → view io keys ≢ 0
      → (end : CtlData e) × (ioctl_ctl_task e u (before ++ io ∷ later) c ≡ ok end)
        × (end.running ≡ false)
        × Shows e (view io switches) end
  ioctl_ctl_task_stops [] io later c quiet on valid down =
      let next = apply_inputs e (view io keys) (view io switches) c in
      let off : next.running ≡ false =
        ground (arith, apply_inputs-running e group (view io keys) (view io switches) c) in
      (
        next,
        task_step io later c on valid ∙ task_done later next off,
        off,
        apply_inputs-Shows e group (view io keys) (view io switches) c,
      )
  ioctl_ctl_task_stops (io' ∷ before) io later c quiet on valid down =
      let next = apply_inputs e (view io' keys) (view io' switches) c in
      let still : next.running ≡ true =
        ground (arith, apply_inputs-running e group (view io' keys) (view io' switches) c) in
      let (end, runs, off, shows) =
        ioctl_ctl_task_stops before io later next quiet.2 still valid down in
      (end, task_step io' (before ++ io ∷ later) c on quiet.0 ∙ runs, off, shows)

  -- In rounds with the registers set up and no key down, a task that is running returns no fault
  -- and goes on running.
  ioctl_ctl_task_goes_on :
      (before : List u.State) (c : CtlData e)
      → Quiet u Ready view before
      → c.running ≡ true
      → (end : CtlData e) × (ioctl_ctl_task e u before c ≡ ok end) × (end.running ≡ true)
  ioctl_ctl_task_goes_on [] c quiet on = (c, (unfold ioctl_ctl_task in refl), on)
  ioctl_ctl_task_goes_on (io ∷ before) c quiet on =
      let next = apply_inputs e (view io keys) (view io switches) c in
      let still : next.running ≡ true =
        ground (arith, apply_inputs-running e group (view io keys) (view io switches) c) in
      let (end, runs, on') = ioctl_ctl_task_goes_on before next quiet.2 still in
      (end, task_step io before c on quiet.0 ∙ runs, on')
