-- ===== src/Audio/Period.antt =====
-- The constants of audio_setup.h, and the period that `acquisition_task` computes from them. The
-- source divides in `double` and cuts the result to an integer; here the quotient is exact.
use ptr24_lab.Prelude.{ℕ, ◌+◌, ◌*◌, ◌/◌, ◌≤◌, arith}

abbrev pub sampling : ℕ
sampling = 48000

abbrev pub fifo_size : ℕ
fifo_size = 256

abbrev pub nb_chan : ℕ
nb_chan = 2

abbrev pub period_margin : ℕ
period_margin = 25

abbrev pub s_in_ns : ℕ
s_in_ns = 1000000000

-- `sizeof(data_t)`, for a `uint16_t`.
abbrev pub sizeof_data_t : ℕ
sizeof_data_t = 2

-- `FIFO_SIZE * NB_CHAN`, the bytes of a message.
abbrev pub message_size : ℕ
message_size = fifo_size * nb_chan

unfoldable pub audio_task_freq : ℕ
audio_task_freq = sampling * sizeof_data_t / fifo_size

unfoldable pub period_in_ns : ℕ
unfolding audio_task_freq
period_in_ns = s_in_ns / (audio_task_freq + period_margin)

-- The task keeps up with the codec: in `n` periods it can read at least as many bytes as `n` periods
-- of stereo sound have.
acquisition_keeps_up :
    (n : ℕ) → n * period_in_ns * (sampling * nb_chan * sizeof_data_t) ≤ n * message_size * s_in_ns
unfolding period_in_ns
acquisition_keeps_up n = omega arith
