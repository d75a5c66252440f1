-- ===== src/Audio/Treatment.antt =====
-- The loop of `treatment_task_t_lol`: it gathers messages in `x` until there is enough for a Fourier
-- transform of the left channel. `x` points to `data_t` values, of two bytes each, while `size` and
-- the results of `rt_queue_receive` count bytes.
use ptr24_lab.Prelude.{
  ℕ, zero, suc, ◌+◌, ◌*◌, List, [], ◌∷◌, Outcome, ok, fault, ◌>>=◌, ltb, leb, if◌then◌else◌, length,
  Option, none, some, Bool,
}
use ptr24_lab.Wav.Files.{overwrite}
use ptr24_lab.Wav.Header.{u16_at}
use ptr24_lab.Audio.Period.{sizeof_data_t}
use ptr24_lab.Audio.Acquisition.{Message, samples, unsized}

abbrev pub fft_buffer_size : ℕ
fft_buffer_size = 8192

abbrev pub fft_buffer_size_left_canal : ℕ
fft_buffer_size_left_canal = 4096

-- The bytes of `x`, the count of bytes received, and the input of the transform if this round got to
-- it, as `data_t` values.
pub record Treatment : Type 0 where
  pub x : List ℕ
  pub size : ℕ
  pub frame : Option (List ℕ)

-- `memcpy(x + size, message, n)`.
abbrev pub copy_in : List ℕ → ℕ → List ℕ → Outcome (List ℕ)
copy_in x size bs =
    if ltb (length x) (sizeof_data_t * size + length bs)
    then fault
    else ok (overwrite x (sizeof_data_t * size) bs)

-- `buf[i] = x[i * 2]` for `i` from a start, `n` times.
unfoldable pub left_channel : List ℕ → ℕ → ℕ → List ℕ
left_channel x zero i = []
left_channel x (suc n) i = u16_at x (sizeof_data_t * (i * 2)) ∷ left_channel x n (i + 1)

-- One round in which a message was received. A size of -1 is reported and then copied all the same.
unfoldable pub treat_message : Message → Treatment → Outcome Treatment
unfolding left_channel
treat_message unsized t = fault
treat_message (samples bs) t = do
  x' ← copy_in t.x t.size bs
  let size' = t.size + length bs
  ok (
      if leb fft_buffer_size size'
      then record { x = x'; size = 0; frame = some (left_channel x' fft_buffer_size_left_canal 0) }
      else record { x = x'; size = size'; frame = none })

-- A round of the loop: without `audio_running` it does nothing.
unfoldable pub treatment_round : Bool → Message → Treatment → Outcome Treatment
unfolding treat_message
treatment_round audio_running m t = if audio_running then treat_message m t else ok t

-- The first `n` messages of a stream, with sound on.
unfoldable pub treat_stream : (ℕ → List ℕ) → ℕ → Treatment → Outcome Treatment
unfolding treat_message
treat_stream stream zero t = ok t
treat_stream stream (suc n) t = treat_stream stream n t >>= treat_message (samples (stream n))
