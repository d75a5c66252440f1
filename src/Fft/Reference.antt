-- ===== src/Fft/Reference.antt =====
-- The transform by halves: a sequence of `2 ^ k` values is split into those at even and those at odd
-- places, and the transforms of the two are put together.
use native.Mathlib.Nat.{pow-suc}
use ptr24_lab.Prelude.{
  ℕ, zero, suc, ◌+◌, ◌-◌, ◌*◌, ◌^◌, ◌<◌, ◌≡◌, ap₂, Bool-cases, inl, inr, ltb, ltb→lt, arith,
  if◌then◌else◌,
}
use ptr24_lab.Fft.{Complexes}

module _ (c : Complexes) (n : ℕ) where
  abbrev pub sum_of : c.C → c.C → ℕ → c.C
  sum_of e o i = c.add e (c.mul (c.turn i n) o)

  abbrev pub difference_of : c.C → c.C → ℕ → c.C
  difference_of e o i = c.sub e (c.mul (c.turn i n) o)

  -- Value `j` of a transform of `2 * half` values, from those of the even and the odd places.
  abbrev pub joined : ℕ → ℕ → (ℕ → c.C) → (ℕ → c.C) → ℕ → c.C
  joined half step even odd j =
      if ltb j half
      then sum_of (even j) (odd j) (2 * step * j)
      else difference_of (even (j - half)) (odd (j - half)) (2 * step * (j - half))

  -- Value `j` of the transform of the values `x 0` to `x (2 ^ k - 1)`, where `step * 2 ^ k` is `n`.
  abbrev pub by_halves : ℕ → ℕ → (ℕ → c.C) → ℕ → c.C
  by_halves zero step x j = x 0
  by_halves (suc k) step x j =
      joined (2 ^ k) step (by_halves k (step * 2) (λ m. x (2 * m)))
        (by_halves k (step * 2) (λ m. x (2 * m + 1))) j

  module _ (half step : ℕ) (even even' odd odd' : ℕ → c.C)
      (same_even : (j : ℕ) → j < half → even j ≡ even' j)
      (same_odd : (j : ℕ) → j < half → odd j ≡ odd' j) where
    pub joined_eq :
        (j : ℕ) → j < 2 * half → joined half step even odd j ≡ joined half step even' odd' j
    joined_eq j h = elim (Bool-cases (ltb j half)) [
      | inl low ↦
          let less : j < half = ltb→lt _ _ low in
          rw (low) (ap₂ (λ e d. sum_of e d (2 * step * j)) (same_even j less) (same_odd j less))
      | inr high ↦
          let less : j - half < half = ground arith in
          rw (high) (
            ap₂ (λ e d. difference_of e d (2 * step * (j - half))) (same_even _ less)
              (same_odd _ less))
    ]

  -- The transform looks at the first `2 ^ k` values only.
  pub by_halves_eq :
      (k step : ℕ) (x y : ℕ → c.C)
      → ((j : ℕ) → j < 2 ^ k → x j ≡ y j)
      → (j : ℕ) → by_halves k step x j ≡ by_halves k step y j
  by_halves_eq zero step x y same j = same 0 (omega arith)
  by_halves_eq (suc k) step x y same j =
      let double : 2 ^ suc k ≡ 2 ^ k * 2 = pow-suc 2 k in
      let even : (i : ℕ)
          → by_halves k (step * 2) (λ m. x (2 * m)) i ≡ by_halves k (step * 2) (λ m. y (2 * m)) i =
        by_halves_eq k (step * 2) _ _ (λ m h. same (2 * m) (omega (arith, double, h))) in
      let odd : (i : ℕ)
          → by_halves k (step * 2) (λ m. x (2 * m + 1)) i
            ≡ by_halves k (step * 2) (λ m. y (2 * m + 1)) i =
        by_halves_eq k (step * 2) _ _ (λ m h. same (2 * m + 1) (omega (arith, double, h))) in
      λ i. joined (2 ^ k) step (λ m. even m i) (λ m. odd m i) j
