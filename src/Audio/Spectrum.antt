-- ===== src/Audio/Spectrum.antt =====
-- The frequency that `treatment_task_t_lol` reports, against the discrete Fourier transform of the
-- samples as its definition has it.
use ptr24_lab.Prelude.{
  ℕ, ◌^◌, ◌<◌, ◌≡◌, refl, sym, ap, ◌∙◌, List, get_or, ◌==◌, if◌then◌else◌, arith,
}
use ptr24_lab.Fft.Dft.{IsExact, dft, by_halves-dft}
use ptr24_lab.Fft.Reference.{by_halves}
use ptr24_lab.Audio.Peak.{Doubles, IsPeak, Peak, power_at, power_of}
use ptr24_lab.Audio.Report.{Numbers}
use ptr24_lab.Audio.Reported.{IsSpectrum}

-- The search looks at the values below its bound only.
same_power :
    (d : Doubles) (buf buf' : ℕ → d.Complex) (i : ℕ)
    → ((j : ℕ) → j < i → buf j ≡ buf' j)
    → (j : ℕ) → j < i
    → power_at d buf j ≡ power_at d buf' j
same_power d buf buf' i same j h =
    ap (λ c. if j == 0 then d.zero_power else power_of d c) (same j h)

same-IsPeak :
    (d : Doubles) (buf buf' : ℕ → d.Complex) (i : ℕ) (s : Peak d)
    → ((j : ℕ) → j < i → buf j ≡ buf' j)
    → IsPeak d buf i s
    → IsPeak d buf' i s
same-IsPeak d buf buf' i s same p =
    let power = same_power d buf buf' i same in
    record {
      inside = p.inside;
      here = p.here ∙ power s.max_index p.inside;
      strongest = λ j h. ap (λ a. d.gt a s.max_power) (sym (power j h)) ∙ p.strongest j h;
      first =
          λ j h. ap (d.gt s.max_power) (sym (power j (omega (arith, h, p.inside)))) ∙ p.first j h;
    }

-- The transform of length `n`, as the search reads it.
abbrev pub spectrum_of :
    (num : Numbers) (n : ℕ) → IsExact num.complexes n → List ℕ → ℕ → (num.doubles).Complex
spectrum_of num n l left j =
    num.value (dft num.complexes n l n 1 (λ i. num.of_sample (get_or left i 0)) j)

halves_spectrum :
    (num : Numbers) (n k : ℕ) (l : IsExact num.complexes n) (left : List ℕ)
    → 2 ^ k ≡ n
    → (j : ℕ) → j < n
    → num.value (by_halves num.complexes n k 1 (λ i. num.of_sample (get_or left i 0)) j)
      ≡ spectrum_of num n l left j
halves_spectrum num n k l left whole j h =
    let x : ℕ → (num.complexes).C = λ i. num.of_sample (get_or left i 0) in
    ap num.value (
      by_halves-dft num.complexes n l k 1 x (omega (arith, whole)) j (rw whole h)
      ∙ ap (λ m. dft num.complexes n l m 1 x j) whole)

-- The peak of the transform by halves is that of the definition.
pub exact_peak :
    (num : Numbers) (l : IsExact num.complexes 4096) (left : List ℕ)
    (spectrum : ℕ → (num.doubles).Complex) (peak : Peak num.doubles)
    → IsSpectrum num left spectrum
    → IsPeak num.doubles spectrum 2048 peak
    → IsPeak num.doubles (spectrum_of num 4096 l left) 2048 peak
exact_peak num l left spectrum peak is_spectrum is_peak =
    let same : (j : ℕ) → j < 2048 → spectrum j ≡ spectrum_of num 4096 l left j = λ j h.
      let h' : j < 4096 = omega (arith, h) in
      is_spectrum.at j h' ∙ halves_spectrum num 4096 12 l left refl j h' in
    same-IsPeak num.doubles spectrum _ 2048 peak same is_peak
