-- ===== src/Control/Task.antt =====
-- The body of `ioctl_ctl_task`. Each round of the loop reads the registers anew, so a run is given
-- by the state of the board in each of its rounds.
use Prim.Native.Nat.{bit_and, bit_or}
use ptr24_lab.Prelude.{ℕ, Bool, false, not, List, [], ◌∷◌, Outcome, ok, ◌>>=◌, ◌==◌, if◌then◌else◌}
use ptr24_lab.Control.Events.{
  Events, audio_running, video_running, greyscale_activation, convolution_activation,
}
use ptr24_lab.Io.Board.{mmap}
use ptr24_lab.Io.Interface.{IoUtils}

abbrev pub key0 : ℕ
key0 = 0x0

abbrev pub switch_0 : ℕ
switch_0 = 0x1

abbrev pub switch_1 : ℕ
switch_1 = 0x2

abbrev pub switch_8 : ℕ
switch_8 = 0x100

abbrev pub switch_9 : ℕ
switch_9 = 0x200

-- A C condition: any value but zero.
abbrev pub truth : ℕ → Bool
truth n = not (n == 0)

module _ (e : Events) where
  -- `Ctl_data_t`; the event group is shared with the other tasks.
  pub record CtlData : Type 0 where
    pub control_event : e.Group
    pub audio_on : Bool
    pub video_on : Bool
    pub running : Bool

  -- `rt_event_signal` or `rt_event_clear`, by a test.
  abbrev pub put_flag : Bool → ℕ → e.Group → e.Group
  put_flag on flag g = if on then e.signal g flag else e.clear g flag

  -- What a round does with the values that it read.
  unfoldable pub apply_inputs : ℕ → ℕ → CtlData → CtlData
  apply_inputs keys switch_value priv =
      let on_0 = truth (bit_and switch_value switch_0) in
      let on_1 = truth (bit_and switch_value switch_1) in
      let on_8 = truth (bit_and switch_value switch_8) in
      let on_9 = truth (bit_and switch_value switch_9) in
      let g₀ = put_flag on_0 audio_running priv.control_event in
      let g₁ = put_flag on_1 video_running g₀ in
      let g₈ = put_flag on_8 greyscale_activation g₁ in
      let g₉ = put_flag on_9 convolution_activation g₈ in
      record {
        control_event = g₉;
        audio_on = on_0;
        video_on = on_1;
        running = if truth (bit_or keys key0) then false else priv.running;
      }

  module _ (u : IoUtils) where
    -- One round of the loop, with the registers as they are then.
    unfoldable pub control_round : u.State → CtlData → Outcome CtlData
    unfolding apply_inputs
    control_round io priv = do
      (keys, io₁) ← u.read_key mmap io
      (switch_value, io₂) ← u.read_switch mmap io₁
      ok (apply_inputs keys switch_value priv)

    -- `while (priv->running)`, as far as the rounds that are given.
    unfoldable pub ioctl_ctl_task : List u.State → CtlData → Outcome CtlData
    ioctl_ctl_task [] priv = ok priv
    ioctl_ctl_task (io ∷ later) priv =
        if priv.running then control_round io priv >>= ioctl_ctl_task later else ok priv
