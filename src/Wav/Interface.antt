-- ===== src/Wav/Interface.antt =====
-- audio_utils.h: the calls that the rest of the program has, over any sound device and any files.
use ptr24_lab.Prelude.{ℕ, List, Bool, Outcome}
use ptr24_lab.Prelude.Int.{ℤ}
use ptr24_lab.Wav.Files.{Code, Read, Write, Run}

-- What `copy_wav_data` leaves: its result, the memory that it fills, and the file.
pub record Copied (File : Type 0) : Type 0 where
  pub code : Code
  pub memory : List ℕ
  pub file : File

-- Buffers are the bytes that they point to. Memory whose content before the call is not set by the
-- caller is an argument: the header for `parse_wav_header`, and what the calls that write a header or
-- read a size find in their own.
pub record AudioUtils : Type 1 where
  pub Sound : Type 0
  pub File : Type 0
  pub init_audio : Bool → Sound → ℕ × Sound
  pub clear_audio : Sound → Sound
  pub write_samples : List ℕ → ℕ → Sound → Write × Sound
  pub read_samples : ℕ → Sound → Read × Sound
  pub map_volume : ℤ → ℕ → Outcome ℤ
  pub parse_wav_header : File → List ℕ → Code × List ℕ × File
  pub write_wav_header : File → ℕ → Code × File
  pub copy_wav_data : File → ℕ → List ℕ → Run (Copied File)
  pub write_wav_data : File → ℕ → List ℕ → Run (Code × File)
  pub append_wav_data : File → List ℕ → ℕ → List ℕ → Run (Code × File)
