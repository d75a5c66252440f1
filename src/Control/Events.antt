-- ===== src/Control/Events.antt =====
-- Event groups of the real-time library, as the tasks use them, and the flags of control.h.
use ptr24_lab.Prelude.{ℕ, ◌≡◌, ◌≢◌, ◌⊎◌, Bool, true, false}

abbrev pub audio_running : ℕ
audio_running = 1

abbrev pub video_running : ℕ
video_running = 2

abbrev pub greyscale_activation : ℕ
greyscale_activation = 4

abbrev pub convolution_activation : ℕ
convolution_activation = 8

-- `rt_event_signal`, `rt_event_clear`, and whether `rt_event_wait` with `EV_ANY` returns at once.
pub record Events : Type 1 where
  pub Group : Type 0
  pub signal : Group → ℕ → Group
  pub clear : Group → ℕ → Group
  pub is_set : Group → ℕ → Bool

-- The masks that the tasks pass have one bit each.
abbrev pub IsFlag : ℕ → Type 0
IsFlag m = (m ≡ 1) ⊎ (m ≡ 2) ⊎ (m ≡ 4) ⊎ (m ≡ 8)

-- A signal sets its flag and a clear takes it back; neither touches another flag.
pub record IsGroup (e : Events) : Type 0 where
  pub set_self : (g : e.Group) (m : ℕ) → IsFlag m → e.is_set (e.signal g m) m ≡ true
  pub clear_self : (g : e.Group) (m : ℕ) → IsFlag m → e.is_set (e.clear g m) m ≡ false
  pub set_other :
      (g : e.Group) (m n : ℕ)
      → IsFlag m
      → IsFlag n
      → m ≢ n
      → e.is_set (e.signal g m) n ≡ e.is_set g n
  pub clear_other :
      (g : e.Group) (m n : ℕ)
      → IsFlag m
      → IsFlag n
      → m ≢ n
      → e.is_set (e.clear g m) n ≡ e.is_set g n
