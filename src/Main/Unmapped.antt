-- ===== src/Main/Unmapped.antt =====
-- `main` over the calls of io_utils.c: it starts the control task whether or not the board was mapped.
use ptr24_lab.Prelude.{◌≡◌, refl, true, false, ◌&&◌, ◌∷◌, [], ◌++◌, some, fault}
use mathlib.Core.List.{append_assoc}
use ptr24_lab.Control.Events.{Events}
use ptr24_lab.Control.Task.{control_round}
use ptr24_lab.Io.Board.{Board, Io, io_keys}
use ptr24_lab.Io.Setup.{init_ioctl, init_ioctl_unchecked}
use ptr24_lab.Io.Simple.{read_key}
use ptr24_lab.Io.Refinement.{io_utils}
use ptr24_lab.Wav.Interface.{AudioUtils}
use ptr24_lab.Video.Interface.{VideoUtils}
use ptr24_lab.Main.Run.{
  io_ready, event_created, spawned, control, SystemAnswers, World, Rest, spawn, setup_io,
  with_event, tasks_run,
}

-- If the task that sets up the registers starts but the device cannot be opened or mapped, then `main`
-- still starts the control task, if its event and its task can be created, and goes on from there; and
-- the first round of that task, on the board and the flags as `main` left them, is undefined.
pub main_starts_unmapped :
    (e : Events) (b : Board) (a : AudioUtils) (v : VideoUtils)
    (ans : SystemAnswers e (io_utils b) a v) (w : World e (io_utils b) a v) (g : e.Group)
    (k : Rest e (io_utils b) a v)
    → ans.io.task_starts ≡ true
    → (ans.io.opens && ans.io.maps) ≡ false
    → ans.event ≡ some g
    → ans.spawns control ≡ true
    → (left : World e (io_utils b) a v) × (setup_io e
          (io_utils b)
          a
          v
          ans
          (with_event e (io_utils b) a v ans ans.event (spawn e (io_utils b) a v ans control k))
          w
        ≡ k (tasks_run e (io_utils b) a v ans (spawned control) left))
      × (left.calls ≡ w.calls ++ io_ready ∷ event_created ∷ spawned control ∷ [])
      × (control_round e (io_utils b) left.io left.ctl ≡ fault)
unfolding setup_io spawn control_round read_key
main_starts_unmapped e b a v ans w g k starts unmapped event spawns =
    let io' : Io b = (init_ioctl b ans.io w.io).1 in
    let left : World e (io_utils b) a v = record w {
      io = io';
      ctl = record (w.ctl) { control_event = g; running = true };
      calls = w.calls ++ io_ready ∷ event_created ∷ spawned control ∷ [];
    } in
    let (zero', unreadable, _) = init_ioctl_unchecked b ans.io w.io starts unmapped in
    (left, simp (zero', event, spawns, append_assoc) refl, refl, simp (unreadable io_keys) refl)
