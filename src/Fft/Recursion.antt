-- ===== src/Fft/Recursion.antt =====
-- `_fft` against the transform by halves.
use native.Mathlib.Nat.{pow-suc}
use ptr24_lab.Prelude.{
  ℕ, zero, suc, ◌+◌, ◌*◌, ◌^◌, ◌<◌, ◌≤◌, ◌≡◌, ◌≢◌, refl, ap, ◌∙◌, true, Outcome, ok, arith, lt→ltb,
}
use ptr24_lab.Fft.{Complexes, Block, Arrays, fft_branch, fft_rec}
use ptr24_lab.Fft.Reference.{joined_eq, by_halves}
use ptr24_lab.Fft.Butterfly.{mul_le, loop_Joined, place_ne}

pub pow_pos : (k : ℕ) → 1 ≤ 2 ^ k
pow_pos zero = omega arith
pow_pos (suc k) = rw (pow-suc 2 k) (omega (arith, pow_pos k))

module _ (c : Complexes) (n : ℕ) where
  -- Index `i` is none of the `2 ^ k` places of a call.
  abbrev Off : ℕ → ℕ → ℕ → ℕ → Type 0
  Off k o step i = (j : ℕ) → j < 2 ^ k → i ≢ o + step * j

  -- What a call at a place and step makes of its two arrays, for the values `x`.
  pub record Transforms (k o step : ℕ) (x : ℕ → c.C) (buf out : Block c.C) (r : Outcome (Arrays c))
      : Type 0 where
    pub buf' : Block c.C
    pub out' : Block c.C
    pub returned : r ≡ ok (buf', out')
    pub size_buf : buf'.size ≡ buf.size
    pub size_out : out'.size ≡ out.size
    pub values : (j : ℕ) → j < 2 ^ k → buf'.at (o + step * j) ≡ by_halves c n k step x j
    pub off_buf : (i : ℕ) → Off k o step i → buf'.at i ≡ buf.at i
    pub off_out : (i : ℕ) → Off k o step i → out'.at i ≡ out.at i

  Off-half : (k o step i : ℕ) → Off (suc k) o step i → Off k o (step * 2) i
  Off-half k o step i off j h e =
      off (2 * j) (rw (pow-suc 2 k) (omega (arith, h))) (omega (arith, e))

  Off-odd_half : (k o step i : ℕ) → Off (suc k) o step i → Off k (o + step) (step * 2) i
  Off-odd_half k o step i off j h e =
      off (2 * j + 1) (rw (pow-suc 2 k) (omega (arith, h))) (omega (arith, e))

  odd_place : (o step m : ℕ) → o + step + step * 2 * m ≡ o + step * (2 * m + 1)
  odd_place o step m = omega arith

  -- Even places are no odd places.
  odd-Off : (k o step m : ℕ) → 0 < step → Off k o (step * 2) (o + step + step * 2 * m)
  odd-Off k o step m pos j h e =
      place_ne o step (2 * m + 1) (2 * j) pos (omega arith) (omega (arith, e))

  even-Off : (k o step m : ℕ) → 0 < step → Off k (o + step) (step * 2) (o + step * 2 * m)
  even-Off k o step m pos j h e =
      place_ne o step (2 * m) (2 * j + 1) pos (omega arith) (omega (arith, e))

  module _ (k d o step : ℕ) (x : ℕ → c.C) (buf out : Block c.C) (pos : 0 < step) (low : o < step)
      (whole : step * 2 ^ suc k ≡ n) (small : n ≤ 2 ^ 30) (fits_buf : n ≤ buf.size)
      (fits_out : n ≤ out.size) (is_buf : (j : ℕ) → j < 2 ^ suc k → buf.at (o + step * j) ≡ x j)
      (is_out : (j : ℕ) → j < 2 ^ suc k → out.at (o + step * j) ≡ x j)
      (even : Transforms k o
        (step * 2)
        (λ m. x (2 * m))
        out
        buf
        (fft_rec c d n o (step * 2) out buf))
      (odd : (out₁ buf₁ : Block c.C)
        → out₁.size ≡ out.size
        → buf₁.size ≡ buf.size
        → ((m : ℕ) → m < 2 ^ k → out₁.at (o + step + step * 2 * m) ≡ x (2 * m + 1))
        → ((m : ℕ) → m < 2 ^ k → buf₁.at (o + step + step * 2 * m) ≡ x (2 * m + 1))
        → Transforms k
            (o + step)
            (step * 2)
            (λ m. x (2 * m + 1))
            out₁
            buf₁
            (fft_rec c d n (o + step) (step * 2) out₁ buf₁)) where
    -- The values of the even and of the odd places, where the second call leaves them.
    firsts :
        (r : Outcome (Arrays c))
        (second_odd : Transforms k (o + step) (step * 2) (λ m. x (2 * m + 1)) even.buf' even.out' r)
        (j : ℕ)
        → j < 2 ^ k
        → second_odd.buf'.at (o + j * (2 * step)) ≡ by_halves c n k (step * 2) (λ m. x (2 * m)) j
    firsts r second_odd j h =
        let place : o + j * (2 * step) ≡ o + step * 2 * j = omega arith in
        ap second_odd.buf'.at place
        ∙ second_odd.off_buf _ (even-Off k o step j pos)
        ∙ even.values j h

    seconds :
        (r : Outcome (Arrays c))
        (second_odd : Transforms k (o + step) (step * 2) (λ m. x (2 * m + 1)) even.buf' even.out' r)
        (j : ℕ)
        → j < 2 ^ k
        → second_odd.buf'.at (o + (j * (2 * step) + step))
          ≡ by_halves c n k (step * 2) (λ m. x (2 * m + 1)) j
    seconds r second_odd j h =
        let place : o + (j * (2 * step) + step) ≡ o + step + step * 2 * j = omega arith in
        ap second_odd.buf'.at place ∙ second_odd.values j h

    pub combine :
        Transforms (suc k) o step x buf out (fft_branch c true (fft_rec c d n) o n step buf out)
    unfolding fft_branch
    combine =
        let half : ℕ = 2 ^ k in
        let double : 2 ^ suc k ≡ half * 2 = pow-suc 2 k in
        let split : half * (2 * step) ≡ n = omega (arith, whole, ap (λ m. step * m) double) in
        let in_odd : (m : ℕ) → m < half → 2 * m + 1 < 2 ^ suc k = λ m h. omega (arith, double, h) in
        let second_odd =
          odd even.buf' even.out' even.size_buf even.size_out
            (λ m h.
              even.off_buf _ (odd-Off k o step m pos)
              ∙ ap out.at (odd_place o step m)
              ∙ is_out (2 * m + 1) (in_odd m h))
            (λ m h.
              even.off_out _ (odd-Off k o step m pos)
              ∙ ap buf.at (odd_place o step m)
              ∙ is_buf (2 * m + 1) (in_odd m h)) in
        let (buf₃, runs, p) =
          loop_Joined c o n step half second_odd.buf' second_odd.out' pos low split
            (omega (arith, second_odd.size_buf, even.size_buf))
            (omega (arith, second_odd.size_out, even.size_out)) small in
        let in_step : step * 2 < 2 ^ 31 =
          omega (arith, split, small, mul_le 1 half (2 * step) (pow_pos k)) in
        record {
          buf' = buf₃;
          out' = second_odd.buf';
          returned =
              simp (lt→ltb (step * 2) (2 ^ 31) in_step, even.returned, second_odd.returned, runs)
                refl;
          size_buf = omega (arith, p.same_size, second_odd.size_out, even.size_out);
          size_out = omega (arith, second_odd.size_buf, even.size_buf);
          values = λ j h.
              p.values j (omega (arith, double, h))
              ∙ joined_eq c n half step _ _ _ _ (firsts _ second_odd) (seconds _ second_odd) j
                  (omega (arith, double, h));
          off_buf = λ i off.
              p.rest i (λ j h. off j (omega (arith, double, h)))
              ∙ second_odd.off_out i (Off-odd_half k o step i off)
              ∙ even.off_out i (Off-half k o step i off);
          off_out = λ i off.
              second_odd.off_buf i (Off-odd_half k o step i off)
              ∙ even.off_buf i (Off-half k o step i off);
        }
