-- ===== src/Fft/Dft.antt =====
-- The transform by halves against the sum that defines the discrete Fourier transform, for numbers that
-- are computed without rounding.
use native.Mathlib.Nat.{pow-suc}
use ptr24_lab.Prelude.{
  ℕ, zero, suc, ◌+◌, ◌-◌, ◌*◌, ◌^◌, ◌<◌, ◌≤◌, ◌≡◌, refl, sym, ap, ap₂, ◌∙◌, Bool-cases, inl, inr,
  ok, ltb, ltb→lt, arith,
}
use ptr24_lab.Fft.{Complexes, Block, fft}
use ptr24_lab.Fft.Reference.{by_halves, sum_of, difference_of}
use ptr24_lab.Fft.Transform.{fft-by_halves}

-- Complex numbers without rounding, for transforms of length `n`: `turn i n` is the unit turned back by
-- `i` of the `2 * n` equal parts of the circle.
pub record IsExact (c : Complexes) (n : ℕ) : Type 0 where
  pub nought : c.C
  pub add_comm : (a b : c.C) → c.add a b ≡ c.add b a
  pub add_assoc : (a b d : c.C) → c.add (c.add a b) d ≡ c.add a (c.add b d)
  pub add_nought : (a : c.C) → c.add nought a ≡ a
  pub mul_add : (t a b : c.C) → c.mul t (c.add a b) ≡ c.add (c.mul t a) (c.mul t b)
  pub mul_nought : (t : c.C) → c.mul t nought ≡ nought
  pub turn_zero : (a : c.C) → c.mul (c.turn 0 n) a ≡ a
  pub turn_add :
      (i j : ℕ) (a : c.C) → c.mul (c.turn i n) (c.mul (c.turn j n) a) ≡ c.mul (c.turn (i + j) n) a
  pub half_turn :
      (i : ℕ) (a b : c.C) → c.sub a (c.mul (c.turn i n) b) ≡ c.add a (c.mul (c.turn (i + n) n) b)
  pub full_turn : (i : ℕ) → c.turn (i + 2 * n) n ≡ c.turn i n

half_place : (step half r : ℕ) → 2 * step * r + step * 2 * half ≡ 2 * step * (half + r)
half_place step half r = omega arith

whole_places :
    (step half r i : ℕ)
    → 2 * (step * 2) * (r * i) + 2 * (step * 2 * half) * i ≡ 2 * (step * 2) * ((half + r) * i)
whole_places step half r i = omega arith

module _ (c : Complexes) (n : ℕ) (l : IsExact c n) where
  unfoldable pub sum : ℕ → (ℕ → c.C) → c.C
  sum zero f = l.nought
  sum (suc m) f = c.add (sum m f) (f m)

  -- Value `j` of the transform of `m` values: `x i` turned back by `j * i` of `m` equal parts of the
  -- circle, where `step * m` is `n`, and all of these added up.
  unfoldable pub dft : ℕ → ℕ → (ℕ → c.C) → ℕ → c.C
  unfolding sum
  dft m step x j = sum m (λ i. c.mul (c.turn (2 * step * (j * i)) n) (x i))

  add_swap : (a b p q : c.C) → c.add (c.add (c.add a b) p) q ≡ c.add (c.add a p) (c.add b q)
  add_swap a b p q =
      l.add_assoc (c.add a b) p q
      ∙ l.add_assoc a b (c.add p q)
      ∙ ap (c.add a)
          (sym (l.add_assoc b p q) ∙ ap (λ s. c.add s q) (l.add_comm b p) ∙ l.add_assoc p b q)
      ∙ sym (l.add_assoc a p (c.add b q))

  -- The even and the odd terms.
  sum_pairs :
      (m : ℕ) (f : ℕ → c.C)
      → sum (m * 2) f ≡ c.add (sum m (λ i. f (2 * i))) (sum m (λ i. f (2 * i + 1)))
  unfolding sum dft
  sum_pairs zero f = sym (l.add_nought l.nought)
  sum_pairs (suc m) f =
      let more : suc m * 2 ≡ suc (suc (m * 2)) = omega arith in
      let even : m * 2 ≡ 2 * m = omega arith in
      let odd : suc (m * 2) ≡ 2 * m + 1 = omega arith in
      ap (λ k. sum k f) more
      ∙ ap₂ (λ p q. c.add (c.add (sum (m * 2) f) p) q) (ap f even) (ap f odd)
      ∙ ap (λ s. c.add (c.add s (f (2 * m))) (f (2 * m + 1))) (sum_pairs m f)
      ∙ add_swap _ _ (f (2 * m)) (f (2 * m + 1))

  mul-sum : (t : c.C) (m : ℕ) (f : ℕ → c.C) → c.mul t (sum m f) ≡ sum m (λ i. c.mul t (f i))
  unfolding sum dft
  mul-sum t zero f = l.mul_nought t
  mul-sum t (suc m) f =
      l.mul_add t (sum m f) (f m) ∙ ap (λ s. c.add s (c.mul t (f m))) (mul-sum t m f)

  full_turns : (m i : ℕ) → c.turn (i + 2 * n * m) n ≡ c.turn i n
  full_turns zero i = ap (λ k. c.turn k n) (omega arith)
  full_turns (suc m) i =
      let e : i + 2 * n * suc m ≡ i + 2 * n * m + 2 * n = omega arith in
      ap (λ k. c.turn k n) e ∙ l.full_turn (i + 2 * n * m) ∙ full_turns m i

  -- Two transforms of half the length, turned and added.
  dft_halves :
      (half step j r : ℕ) (x : ℕ → c.C)
      → ((i : ℕ) → c.turn (2 * (step * 2) * (r * i)) n ≡ c.turn (2 * (step * 2) * (j * i)) n)
      → c.add
          (dft half (step * 2) (λ m. x (2 * m)) r)
          (c.mul (c.turn (2 * step * j) n) (dft half (step * 2) (λ m. x (2 * m + 1)) r))
        ≡ dft (half * 2) step x j
  unfolding sum dft
  dft_halves half step j r x same =
      let place : (i : ℕ) → 2 * (step * 2) * (j * i) ≡ 2 * step * (j * (2 * i)) =
        λ i. omega arith in
      let place' : (i : ℕ)
          → 2 * step * j + 2 * (step * 2) * (j * i) ≡ 2 * step * (j * (2 * i + 1)) =
        λ i. omega arith in
      let even : (i : ℕ)
          → c.mul (c.turn (2 * (step * 2) * (r * i)) n) (x (2 * i))
            ≡ c.mul (c.turn (2 * step * (j * (2 * i))) n) (x (2 * i)) =
        λ i. ap (λ t. c.mul t (x (2 * i))) (same i ∙ ap (λ k. c.turn k n) (place i)) in
      let odd : (i : ℕ)
          → c.mul (c.turn (2 * step * j) n)
              (c.mul (c.turn (2 * (step * 2) * (r * i)) n) (x (2 * i + 1)))
            ≡ c.mul (c.turn (2 * step * (j * (2 * i + 1))) n) (x (2 * i + 1)) =
        λ i.
          ap (λ t. c.mul (c.turn (2 * step * j) n) (c.mul t (x (2 * i + 1)))) (same i)
          ∙ l.turn_add (2 * step * j) (2 * (step * 2) * (j * i)) (x (2 * i + 1))
          ∙ ap (λ k. c.mul (c.turn k n) (x (2 * i + 1))) (place' i) in
      ap₂ c.add (λ k. sum half (λ i. even i k))
        (mul-sum (c.turn (2 * step * j) n) half _ ∙ (λ k. sum half (λ i. odd i k)))
      ∙ sym (sum_pairs half (λ i. c.mul (c.turn (2 * step * (j * i)) n) (x i)))

  pub by_halves-dft :
      (k step : ℕ) (x : ℕ → c.C)
      → step * 2 ^ k ≡ n
      → (j : ℕ) → j < 2 ^ k
      → by_halves c n k step x j ≡ dft (2 ^ k) step x j
  unfolding sum dft
  by_halves-dft zero step x whole j h =
      let none : j ≡ 0 = omega (arith, h) in
      let place : 0 ≡ 2 * step * (j * 0) = omega arith in
      sym (l.turn_zero (x 0)) ∙ ap (λ i. c.mul (c.turn i n) (x 0)) place ∙ sym (l.add_nought _)
  by_halves-dft (suc k) step x whole j h =
      let half : ℕ = 2 ^ k in
      let double : 2 ^ suc k ≡ half * 2 = pow-suc 2 k in
      let part : step * 2 * half ≡ n = omega (arith, whole, ap (λ m. step * m) double) in
      let even = by_halves-dft k (step * 2) (λ m. x (2 * m)) part in
      let odd = by_halves-dft k (step * 2) (λ m. x (2 * m + 1)) part in
      elim (Bool-cases (ltb j half)) [
        | inl low ↦
            let less : j < half = ltb→lt _ _ low in
            rw (low, double)
              (ap₂ (λ a b. sum_of c n a b (2 * step * j)) (even j less) (odd j less)
                ∙ dft_halves half step j j x (λ i. refl))
        | inr high ↦
            let r : ℕ = j - half in
            let less : r < half = ground (arith, double, h) in
            let back : j ≡ half + r = ground arith in
            let place : 2 * step * r + n ≡ 2 * step * j =
              ap (λ m. 2 * step * r + m) (sym part)
              ∙ half_place step half r
              ∙ ap (λ m. 2 * step * m) (sym back) in
            let same : (i : ℕ)
                → c.turn (2 * (step * 2) * (r * i)) n ≡ c.turn (2 * (step * 2) * (j * i)) n =
              λ i.
                sym (full_turns i (2 * (step * 2) * (r * i)))
                ∙ ap (λ m. c.turn m n)
                    (ap (λ m. 2 * (step * 2) * (r * i) + 2 * m * i) (sym part)
                      ∙ whole_places step half r i
                      ∙ ap (λ m. 2 * (step * 2) * (m * i)) (sym back)) in
            rw (high, double)
              (ap₂ (λ a b. difference_of c n a b (2 * step * r)) (even r less) (odd r less)
                ∙ l.half_turn (2 * step * r) _ _
                ∙ ap
                    (λ m.
                      c.add (dft half (step * 2) (λ i. x (2 * i)) r)
                        (c.mul (c.turn m n) (dft half (step * 2) (λ i. x (2 * i + 1)) r)))
                    place
                ∙ dft_halves half step j r x same)
      ]

-- For complex numbers without rounding and a power of two `2 ^ k` up to 2 ^ 30 as length, within the two
-- arrays, `fft` returns, and leaves in the first array the discrete Fourier transform of what was there: each
-- value is the sum that defines it. Past the length, both arrays are as before.
pub fft-dft :
    (c : Complexes) (n k : ℕ) (l : IsExact c n) (buf out : Block c.C)
    → 2 ^ k ≡ n
    → n ≤ 2 ^ 30
    → n ≤ buf.size
    → n ≤ out.size
    → (buf' out' : Block c.C) × (fft c buf out n ≡ ok (buf', out'))
      × ((j : ℕ) → j < n → buf'.at j ≡ dft c n l n 1 buf.at j)
      × ((i : ℕ) → n ≤ i → (buf'.at i ≡ buf.at i) × (out'.at i ≡ out.at i))
fft-dft c n k l buf out whole small fits_buf fits_out =
    let (buf', out', runs, values, rest) =
      fft-by_halves c n k buf out whole small fits_buf fits_out in
    (
      buf',
      out',
      runs,
      λ j h.
          values j h
          ∙ by_halves-dft c n l k 1 buf.at (omega (arith, whole)) j (rw whole h)
          ∙ ap (λ m. dft c n l m 1 buf.at j) whole,
      rest,
    )
