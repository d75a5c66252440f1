-- ===== src/Audio/Reported.antt =====
-- From messages to the frequency that is reported: the gathering, the transform and the search together.
use ptr24_lab.Prelude.{
  ℕ, ◌*◌, ◌/◌, ◌%◌, ◌<◌, ◌≡◌, true, List, [], none, length, get_or, ltb, if◌then◌else◌,
}
use ptr24_lab.Fft.{Arrays}
use ptr24_lab.Fft.Reference.{by_halves}
use ptr24_lab.Wav.Header.{u16_at}
use ptr24_lab.Audio.Acquisition.{samples}
use ptr24_lab.Audio.Peak.{Peak, principal_freq}
use ptr24_lab.Audio.Report.{Report, Numbers, RoundInputs, elapsed, Treater}

-- Value `i` of a frame after sixteen messages, with `x₀` in memory before.
abbrev pub placed_sample : (ℕ → List ℕ) → List ℕ → ℕ → ℕ
placed_sample stream x₀ i =
    if ltb (i % 256) 128 then u16_at (stream (i / 256)) (4 * (i % 256)) else u16_at x₀ (4 * i)

module _ (num : Numbers) where
  -- The transform of 4096 samples, as the search reads it.
  pub record IsSpectrum (left : List ℕ) (spectrum : ℕ → (num.doubles).Complex) : Type 0 where
    pub at :
        (j : ℕ)
        → j < 4096
        → spectrum j
          ≡ num.value (by_halves num.complexes 4096 12 1 (λ i. num.of_sample (get_or left i 0)) j)

  -- What a round reports.
  abbrev pub report_of : RoundInputs → Peak num.doubles → Report
  report_of r peak = record {
    principal_freq = principal_freq peak.max_index;
    processing_time = elapsed r.now r.previous;
  }

  module _ (stream : ℕ → List ℕ) (x₀ : List ℕ) (full : (k : ℕ) → length (stream k) ≡ 512)
      (room : length x₀ ≡ 16384) (turns : ℕ → RoundInputs)
      (on : (k : ℕ) → (turns k).audio_on ≡ true)
      (sent : (k : ℕ) → (turns k).message ≡ samples (stream k))
      (arrays : Arrays num.complexes) where
    abbrev after : ℕ → List ℕ → Treater num
    after k x = record {
      gathering = record { x = x; size = 512 * k; frame = none };
      arrays = arrays;
      has_power = true;
      logged = [];
    }
