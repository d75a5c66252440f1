-- ===== src/Audio/Report.antt =====
-- `treatment_task_t_lol` as a whole: a round with its transform and its report, the loop, and what the
-- task allocates; and `monitoring_task`, which prints the reports.
use ptr24_lab.Prelude.{
  ℕ, zero, suc, ◌+◌, ◌-◌, ◌^◌, ◌%◌, Bool, true, false, List, [], ◌∷◌, ◌++◌, Option, none, some,
  Outcome, ok, fault, ◌>>=◌, length, get_or, if◌then◌else◌,
}
use ptr24_lab.Prelude.Loop.{for_range, rounds}
use ptr24_lab.Fft.{Complexes, Block, Arrays, copy_body, fft}
use ptr24_lab.Video.Filters.{allocated}
use ptr24_lab.Audio.Acquisition.{Message}
use ptr24_lab.Audio.Treatment.{Treatment, treat_message, fft_buffer_size_left_canal}
use ptr24_lab.Audio.Peak.{Doubles, Peak, find_peak, principal_freq}

-- `message_logging_t`, with the frequency in units of 1/128 Hz.
pub record Report : Type 0 where
  pub principal_freq : ℕ
  pub processing_time : ℕ

-- The numbers of the task: `x + 0 * I` for a sample, and a value of the transform as it is read.
pub record Numbers : Type 1 where
  pub complexes : Complexes
  pub doubles : Doubles
  pub of_sample : ℕ → complexes.C
  pub value : complexes.C → doubles.Complex

-- What a round finds: the flag, the message, the time before and after the transform, and whether the
-- queue to the monitoring task has room.
pub record RoundInputs : Type 0 where
  pub audio_on : Bool
  pub message : Message
  pub previous : ℕ
  pub now : ℕ
  pub has_room : Bool

-- A difference of two values of `RTIME`.
abbrev pub elapsed : ℕ → ℕ → ℕ
elapsed now previous = (now + 2 ^ 64 - previous) % 2 ^ 64

module _ (num : Numbers) where
  -- `has_power` is whether `power`, which is only written, was allocated.
  pub record Treater : Type 0 where
    pub gathering : Treatment
    pub arrays : Arrays num.complexes
    pub has_power : Bool
    pub logged : List Report

  -- The samples of the left channel as numbers.
  abbrev pub frame_values : List ℕ → Block (num.complexes).C
  frame_values left = record { size = length left; at = λ i. num.of_sample (get_or left i 0) }

  -- The search, in the values that the transform left.
  unfoldable pub search_in :
      Bool → Arrays num.complexes → Outcome (Peak num.doubles × Arrays num.complexes)
  search_in has_power arrays =
      if has_power
      then ok (find_peak num.doubles (λ i. num.value ((arrays.0).at i)), arrays)
      else fault

  -- From the samples to the peak.
  unfoldable pub analyse :
      List ℕ → Bool → Arrays num.complexes → Outcome (Peak num.doubles × Arrays num.complexes)
  unfolding for_range fft copy_body
  analyse left has_power arrays = do
    buf ←
        for_range 1 (copy_body num.complexes (frame_values left))
          (rounds fft_buffer_size_left_canal 1) 0 arrays.0
    arrays' ← fft num.complexes buf arrays.1 fft_buffer_size_left_canal
    search_in has_power arrays'

  -- The end of a round; `false` is the break where the queue has no room.
  unfoldable pub send_report : RoundInputs → Option (List ℕ) → Treater → Outcome (Bool × Treater)
  unfolding analyse principal_freq search_in
  send_report r none t = ok (true, t)
  send_report r (some left) t = do
    (peak, arrays') ← analyse left t.has_power t.arrays
    let report : Report = record {
      principal_freq = principal_freq peak.max_index;
      processing_time = elapsed r.now r.previous;
    }
    ok (
      r.has_room,
      record t {
        arrays = arrays';
        logged = if r.has_room then t.logged ++ report ∷ [] else t.logged;
      },
    )

  unfoldable pub task_round : RoundInputs → Treater → Outcome (Bool × Treater)
  unfolding send_report treat_message
  task_round r t =
      if r.audio_on
      then (do
        g ← treat_message r.message t.gathering
        send_report r g.frame (record t { gathering = g }))
      else ok (true, t)

  -- No round follows a break.
  abbrev pub next_round : RoundInputs → Bool × Treater → Outcome (Bool × Treater)
  next_round r (false, t) = ok (false, t)
  next_round r (true, t) = task_round r t

  -- The loop, for `n` rounds in which the program runs.
  unfoldable pub task_loop : (ℕ → RoundInputs) → ℕ → Treater → Outcome (Bool × Treater)
  unfolding task_round
  task_loop turns zero t = ok (true, t)
  task_loop turns (suc n) t = task_loop turns n t >>= next_round (turns n)

  -- Memory for the numbers of a transform, with what is in it, or none.
  abbrev pub room_for : Option (ℕ → (num.complexes).C) → Block (num.complexes).C
  room_for none = record { size = 0; at = λ i. num.of_sample 0 }
  room_for (some f) = record { size = fft_buffer_size_left_canal; at = f }

  -- The task at its start.
  abbrev pub treater :
      Option (ℕ → (num.complexes).C)
      → Option (List ℕ)
      → Option (ℕ → (num.complexes).C)
      → Bool
      → Treater
  treater out x buf has_power = record {
    gathering = record { x = allocated x; size = 0; frame = none };
    arrays = (room_for buf, room_for out);
    has_power = has_power;
    logged = [];
  }

  -- The reports that the task sends, or none if its queue cannot be created.
  unfoldable pub treatment_task :
      Bool → Treater → (ℕ → RoundInputs) → ℕ → Outcome (Option (List Report))
  unfolding task_loop
  treatment_task false t turns n = ok none
  treatment_task true t turns n = do (goes, end) ← task_loop turns n t; ok (some end.logged)

-- What `monitoring_task` prints. A read that fails leaves `message` as it was.
unfoldable pub monitoring_task : List (Option Report) → Report → List Report
monitoring_task [] message = []
monitoring_task (none ∷ reads) message = message ∷ monitoring_task reads message
monitoring_task (some r ∷ reads) message = r ∷ monitoring_task reads r
