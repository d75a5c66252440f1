-- ===== src/Tests/Overflows.antt =====
-- The theorems about the room for messages, on messages of zeros.
use ptr24_lab.Prelude.{
  ℕ, ◌+◌, ◌*◌, ◌%◌, ◌<◌, ◌≡◌, refl, ◌∙◌, List, none, ok, fault, length, replicate, length-replicate,
  ◌==◌, if◌then◌else◌, arith,
}
use ptr24_lab.Audio.Treatment.{Treatment, treat_stream}
use ptr24_lab.Audio.Overflow.{treat_stream_fits, treat_stream_overruns}

abbrev zeros : List ℕ
zeros = replicate 16384 0

abbrev at_start : Treatment
at_start = record { x = zeros; size = 0; frame = none }

-- Messages of 0, 256 and 512 bytes by turns.
abbrev by_parts : ℕ → List ℕ
by_parts k = replicate (256 * (k % 3)) 0

treat_stream_fits_example :
    (t : Treatment) × (treat_stream by_parts 40 at_start ≡ ok t)
    × (length t.x ≡ 16384)
    × ((m : ℕ) × (m < 32) × (t.size ≡ 256 * m))
treat_stream_fits_example =
    treat_stream_fits by_parts (λ k. k % 3) zeros (λ k. omega arith)
      (λ k. length-replicate {A = ℕ} (256 * (k % 3)) 0) (length-replicate {A = ℕ} 16384 0) 40

-- The sixteenth message is short.
abbrev one_short : ℕ → List ℕ
one_short k = replicate (if k == 15 then 300 else 512) 0

length-one_short : (k n : ℕ) → (if k == 15 then 300 else 512) ≡ n → length (one_short k) ≡ n
length-one_short k n e = length-replicate {A = ℕ} (if k == 15 then 300 else 512) 0 ∙ e

treat_stream_overruns_example : treat_stream one_short (3 + 17) at_start ≡ fault
treat_stream_overruns_example =
    treat_stream_overruns one_short zeros 3 (λ k h. length-one_short k 512 (ground arith))
      (omega (arith, length-one_short 15 300 refl)) (omega (arith, length-one_short 15 300 refl))
      (length-one_short 16 512 refl) (length-replicate {A = ℕ} 16384 0)
