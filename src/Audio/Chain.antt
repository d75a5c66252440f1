-- ===== src/Audio/Chain.antt =====
-- The whole way of the sound: from the device through the acquisition, the queue, the treatment and the
-- transform to the report.
use ptr24_lab.Prelude.{
  ℕ, zero, suc, ◌+◌, ◌*◌, ◌<◌, ◌≤◌, ◌≡◌, true, List, [], ◌∷◌, length, take, drop, replicate, ltb,
  if◌then◌else◌,
}
use ptr24_lab.Wav.Files.{Files}
use ptr24_lab.Audio.Acquisition.{Message, samples}
use ptr24_lab.Audio.Peak.{Peak}
use ptr24_lab.Audio.Report.{RoundInputs}

-- The messages of `n` rounds, from place `at` of the bytes on.
abbrev pub blocks : ℕ → ℕ → List ℕ → List Message
blocks zero at bytes = []
blocks (suc n) at bytes = samples (take 512 (drop at bytes)) ∷ blocks n (at + 512) bytes

-- What a round reads.
abbrev pub block : ℕ → List ℕ → ℕ → List ℕ
block at bytes k = take 512 (drop (at + 512 * k) bytes)

module _ (at : ℕ) (bytes : List ℕ) (enough : at + 512 * 16 ≤ length bytes) where
  -- Sixteen messages, and something after them.
  abbrev padded : ℕ → List ℕ
  padded k = if ltb k 16 then block at bytes k else replicate 512 0

  module _ (turns : ℕ → RoundInputs) (on : (k : ℕ) → k < 16 → (turns k).audio_on ≡ true)
      (sent : (k : ℕ) → k < 16 → (turns k).message ≡ samples (block at bytes k)) where
    abbrev padded_turns : ℕ → RoundInputs
    padded_turns k = if ltb k 16 then turns k else record {
      audio_on = true;
      message = samples (padded k);
      previous = 0;
      now = 0;
      has_room = true;
    }
