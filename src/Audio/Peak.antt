-- ===== src/Audio/Peak.antt =====
-- The search for the strongest frequency in `treatment_task_t_lol`. The numbers of type `double` and
-- `double complex` and their operations are not part of the source: they are a parameter.
use ptr24_lab.Prelude.{
  ℕ, zero, suc, ◌+◌, ◌-◌, ◌*◌, ◌/◌, ◌<◌, ◌≡◌, refl, Bool, true, false, ◌==◌, if◌then◌else◌, arith,
  Bool-cases, inl, inr,
}
use native.Mathlib.Numerals.{unary_clauses}
use ptr24_lab.Audio.Period.{sampling}
use ptr24_lab.Audio.Treatment.{fft_buffer_size_left_canal}

pub record Doubles : Type 1 where
  pub Real : Type 0
  pub Complex : Type 0
  pub zero_power : Real
  pub gt : Real → Real → Bool
  pub add : Real → Real → Real
  pub mul : Real → Real → Real
  pub real_part : Complex → Real
  pub imaginary_part : Complex → Real

-- The order of numbers none of which is a NaN.
pub record IsOrdered (d : Doubles) : Type 0 where
  pub gt_irrefl : (a : d.Real) → d.gt a a ≡ false
  pub gt_trans : (a b c : d.Real) → d.gt a b ≡ true → d.gt b c ≡ true → d.gt a c ≡ true
  pub gt_weaken : (a b c : d.Real) → d.gt a b ≡ true → d.gt c b ≡ false → d.gt a c ≡ true

module _ (d : Doubles) where
  pub record Peak : Type 0 where
    pub max_power : d.Real
    pub max_index : ℕ

  -- `re * re + im * im`, for the value at an index of the transform.
  unfoldable pub power_of : d.Complex → d.Real
  power_of c =
      let re = d.real_part c in let im = d.imaginary_part c in d.add (d.mul re re) (d.mul im im)

  module _ (buf : ℕ → d.Complex) where
    unfoldable pub peak_loop : ℕ → ℕ → Peak → Peak
    peak_loop zero i s = s
    peak_loop (suc n) i s = peak_loop n (i + 1) (
        if d.gt (power_of (buf i)) s.max_power
        then record { max_power = power_of (buf i); max_index = i }
        else s)

    -- The loop from 1 up to half of the transform.
    unfoldable pub find_peak : Peak
    unfolding peak_loop
    find_peak =
        peak_loop (fft_buffer_size_left_canal / 2 - 1) 1
          (record { max_power = d.zero_power; max_index = 0 })

    -- The power that an index stands for; index 0, which the loop skips, stands for none.
    abbrev pub power_at : ℕ → d.Real
    power_at j = if j == 0 then d.zero_power else power_of (buf j)

    -- The strongest of the indices below `i`, and the first of those.
    pub record IsPeak (i : ℕ) (s : Peak) : Type 0 where
      pub inside : s.max_index < i
      pub here : s.max_power ≡ power_at s.max_index
      pub strongest : (j : ℕ) → j < i → d.gt (power_at j) s.max_power ≡ false
      pub first : (j : ℕ) → j < s.max_index → d.gt s.max_power (power_at j) ≡ true

-- `((double)max_index * (double)SAMPLING) / (double)FFT_BUFFER_SIZE_LEFT_CANAL`, in units of 1/128 Hz,
-- in which it is a whole number. The macro is `8192 / 2` with no brackets around it, so the quotient
-- by 8192 is divided by 2 again.
unfoldable pub principal_freq : ℕ → ℕ
principal_freq max_index = max_index * sampling * 128 / 8192 / 2

module _ (d : Doubles) (o : IsOrdered d) (buf : ℕ → d.Complex) where
  strongest_more :
      (i : ℕ) (s : Peak d)
      → IsPeak d buf i s
      → 0 < i
      → d.gt (power_of d (buf i)) s.max_power ≡ true
      → (j : ℕ) → j < i + 1
      → d.gt (power_at d buf j) (power_of d (buf i)) ≡ false
  strongest_more i s p pos more j h =
      elim (Bool-cases (d.gt (power_at d buf j) (power_of d (buf i)))) [
        | inr less ↦ less
        | inl above ↦ ground (
          arith,
          p.strongest j,
          o.gt_trans (power_at d buf j) (power_of d (buf i)) s.max_power above more,
          o.gt_irrefl (power_of d (buf i)),
        )
      ]

  step-IsPeak :
      (i : ℕ) (s : Peak d)
      → 0 < i
      → IsPeak d buf i s
      → IsPeak d buf (i + 1) (
          if d.gt (power_of d (buf i)) s.max_power
          then record { max_power = power_of d (buf i); max_index = i }
          else s)
  step-IsPeak i s pos p = elim (Bool-cases (d.gt (power_of d (buf i)) s.max_power)) [
    | inl more ↦ rw more (record {
      inside = omega arith;
      here = ground arith;
      strongest = λ j h. strongest_more i s p pos more j h;
      first = λ j h. o.gt_weaken _ _ _ more (p.strongest j h);
    })
    | inr less ↦ rw less (record {
      inside = omega (arith, p.inside);
      here = p.here;
      strongest = λ j h. ground (arith, p.strongest j);
      first = p.first;
    })
  ]

  peak_loop-IsPeak :
      (n i : ℕ) (s : Peak d)
      → 0 < i
      → IsPeak d buf i s
      → IsPeak d buf (i + n) (peak_loop d buf n i s)
  unfolding peak_loop
  peak_loop-IsPeak zero i s pos p = simp unary_clauses p
  peak_loop-IsPeak (suc n) i s pos p =
      let e : i + suc n ≡ i + 1 + n = omega arith in
      rw e (peak_loop-IsPeak n (i + 1) _ (omega arith) (step-IsPeak i s pos p))

  start-IsPeak : IsPeak d buf 1 (record { max_power = d.zero_power; max_index = 0 })
  start-IsPeak = record {
    inside = omega arith;
    here = refl;
    strongest = λ j h. let e : j ≡ 0 = omega arith in rw e (o.gt_irrefl d.zero_power);
    first = λ j h. ground arith;
  }

  -- For numbers in a strict order with no NaN, the search returns the index of the strongest of the
  -- frequencies 0 to 2047, frequency 0 counting as having the power 0: its power is the one returned,
  -- no other is greater, and those before it are less.
  pub find_peak_lem : IsPeak d buf (fft_buffer_size_left_canal / 2) (find_peak d buf)
  unfolding find_peak
  find_peak_lem = peak_loop-IsPeak 2047 1 _ (omega arith) start-IsPeak
