-- ===== src/Video/Interface.antt =====
-- video_utils.h: the calls that the rest of the program has, over any state of the device.
use ptr24_lab.Prelude.{ℕ, List}
use ptr24_lab.Io.Board.{Pointer}
use ptr24_lab.Wav.Files.{Code}

pub record VideoUtils : Type 1 where
  pub State : Type 0
  pub Answers : Type 0
  pub init_video : Answers → State → Code × State
  pub clear_video : State → State
  pub get_video_buffer : State → Pointer
  pub write_frame : State → List ℕ → ℕ → Code × State
