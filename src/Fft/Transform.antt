-- ===== src/Fft/Transform.antt =====
-- `_fft` and `fft` return the transform by halves.
use native.Mathlib.Nat.{pow-suc}
use ptr24_lab.Prelude.{
  ℕ, zero, suc, ◌+◌, ◌*◌, ◌^◌, ◌<◌, ◌≤◌, ◌≡◌, ◌≢◌, refl, sym, ap, ◌∙◌, ok, lt→ltb, ltb-false, arith,
  ◌==◌, Bool-cases, inl, inr,
}
use ptr24_lab.Prelude.Loop.{for_range, for_range_inv, rounds}
use ptr24_lab.Fft.{Complexes, Block, put_at, fft_branch, fft_rec, copy_body, fft}
use ptr24_lab.Fft.Reference.{by_halves}
use ptr24_lab.Fft.Butterfly.{put_at_self, put_at_ne, mul_le}
use ptr24_lab.Fft.Recursion.{Transforms, combine, pow_pos}

lt_pow : (k : ℕ) → k < 2 ^ k
lt_pow zero = omega arith
lt_pow (suc k) = rw (pow-suc 2 k) (omega (arith, lt_pow k))

mul_deeper : (step m : ℕ) → 0 < step → 1 ≤ m → step < step * 2 * m
mul_deeper step m pos h = omega (arith, pos, mul_le 1 m (step * 2) h)

module _ (c : Complexes) (n : ℕ) where
  -- One value is its own transform.
  single :
      (d o step : ℕ) (x : ℕ → c.C) (buf out : Block c.C)
      → step ≡ n
      → buf.at (o + step * 0) ≡ x 0
      → Transforms c n 0 o step x buf out (fft_rec c (suc d) n o step buf out)
  unfolding fft_rec fft_branch
  single d o step x buf out whole is_buf = record {
    buf' = buf;
    out' = out;
    returned = rw (ltb-false step n (omega (arith, whole))) refl;
    size_buf = refl;
    size_out = refl;
    values = λ j h. ap (λ i. buf.at (o + step * i)) (omega (arith, h)) ∙ is_buf;
    off_buf = λ i off. refl;
    off_out = λ i off. refl;
  }

  fft_rec_lem :
      (k d o step : ℕ) (x : ℕ → c.C) (buf out : Block c.C)
      → k < d
      → 0 < step
      → o < step
      → step * 2 ^ k ≡ n
      → n ≤ 2 ^ 30
      → n ≤ buf.size
      → n ≤ out.size
      → ((j : ℕ) → j < 2 ^ k → buf.at (o + step * j) ≡ x j)
      → ((j : ℕ) → j < 2 ^ k → out.at (o + step * j) ≡ x j)
      → Transforms c n k o step x buf out (fft_rec c d n o step buf out)
  unfolding fft_rec
  fft_rec_lem k zero o step x buf out depth pos low whole small fits_buf fits_out is_buf is_out =
      absurd (omega (arith, depth))
  fft_rec_lem zero (suc d) o step x buf out depth pos low whole small fits_buf fits_out is_buf
        is_out =
      single d o step x buf out (omega (arith, whole)) (is_buf 0 (omega arith))
  fft_rec_lem (suc k) (suc d) o step x buf out depth pos low whole small fits_buf fits_out is_buf
        is_out =
      let double : 2 ^ suc k ≡ 2 ^ k * 2 = pow-suc 2 k in
      let whole' : step * 2 * 2 ^ k ≡ n = omega (arith, whole, ap (λ m. step * m) double) in
      let deeper : step < n = omega (arith, whole', mul_deeper step (2 ^ k) pos (pow_pos k)) in
      rw (lt→ltb _ _ deeper) (
        combine c n k d o step x buf out pos low whole small fits_buf fits_out is_buf is_out
          (fft_rec_lem k d o (step * 2) (λ m. x (2 * m)) out buf (omega (arith, depth))
            (omega (arith, pos)) (omega (arith, low)) whole' small fits_out fits_buf
            (λ j h. ap out.at (omega arith) ∙ is_out (2 * j) (omega (arith, double, h)))
            (λ j h. ap buf.at (omega arith) ∙ is_buf (2 * j) (omega (arith, double, h))))
          (λ out₁ buf₁ size_out size_buf is_out₁ is_buf₁.
            fft_rec_lem k d (o + step) (step * 2) (λ m. x (2 * m + 1)) out₁ buf₁
              (omega (arith, depth)) (omega (arith, pos)) (omega (arith, low)) whole' small
              (omega (arith, size_out, fits_out)) (omega (arith, size_buf, fits_buf)) is_out₁
              is_buf₁))

  -- After the copies to the first `i` places of `out`.
  pub record CopiedUpTo (buf out : Block c.C) (i : ℕ) (t : Block c.C) : Type 0 where
    pub within : i ≤ n
    pub same_size : t.size ≡ out.size
    pub values : (j : ℕ) → j < i → t.at j ≡ buf.at j
    pub rest : (j : ℕ) → i ≤ j → t.at j ≡ out.at j

  keep_copied :
      (buf out : Block c.C)
      → n ≤ buf.size
      → n ≤ out.size
      → (i : ℕ) (s : Block c.C) → i < n
      → CopiedUpTo buf out i s
      → (t : Block c.C) × (copy_body c buf i s ≡ ok t) × CopiedUpTo buf out (i + 1) t
  unfolding copy_body
  keep_copied buf out fits_buf fits_out i s h p =
      let in_buf : i < buf.size = omega arith in
      let in_out : i < s.size = omega (arith, p.same_size) in
      (
        record s { at = put_at s.at i (buf.at i) },
        rw (lt→ltb _ _ in_buf, lt→ltb _ _ in_out) refl,
        record {
          within = omega arith;
          same_size = p.same_size;
          values = λ j hj. elim (Bool-cases (j == i)) [
            | inl here ↦
                let e : j ≡ i = ground arith in
                ap (put_at s.at i (buf.at i)) e ∙ put_at_self s.at i (buf.at i) ∙ ap buf.at (sym e)
            | inr before ↦ put_at_ne s.at i (buf.at i) j (ground arith) ∙ p.values j (ground arith)
          ];
          rest = λ j hj. put_at_ne s.at i (buf.at i) j (omega arith) ∙ p.rest j (omega arith);
        },
      )

  pub copies :
      (buf out : Block c.C)
      → n ≤ buf.size
      → n ≤ out.size
      → (t : Block c.C) × (for_range 1 (copy_body c buf) (rounds n 1) 0 out ≡ ok t)
        × CopiedUpTo buf out n t
  copies buf out fits_buf fits_out =
      for_range_inv 1 (copy_body c buf) (CopiedUpTo buf out) n
        (keep_copied buf out fits_buf fits_out) (rounds n 1) 0 out (omega arith) (omega arith)
        (record {
          within = omega arith;
          same_size = refl;
          values = λ j h. absurd (omega arith);
          rest = λ j h. refl;
        })

  -- For a power of two `2 ^ k` up to 2 ^ 30 as length, within the two arrays, `fft` returns, and leaves in the
  -- first array the transform by halves of what was there; past the length, both arrays are as before.
  pub fft-by_halves :
      (k : ℕ) (buf out : Block c.C)
      → 2 ^ k ≡ n
      → n ≤ 2 ^ 30
      → n ≤ buf.size
      → n ≤ out.size
      → (buf' out' : Block c.C) × (fft c buf out n ≡ ok (buf', out'))
        × ((j : ℕ) → j < n → buf'.at j ≡ by_halves c n k 1 buf.at j)
        × ((i : ℕ) → n ≤ i → (buf'.at i ≡ buf.at i) × (out'.at i ≡ out.at i))
  unfolding fft
  fft-by_halves k buf out whole small fits_buf fits_out =
      let (out₁, copied, p) = copies buf out fits_buf fits_out in
      let fits_out₁ : n ≤ out₁.size = rw p.same_size fits_out in
      let r =
        fft_rec_lem k (suc n) 0 1 buf.at buf out₁ (omega (arith, whole, lt_pow k)) (omega arith)
          (omega arith) (omega (arith, whole)) small fits_buf fits_out₁
          (λ j h. ap buf.at (omega arith))
          (λ j h. ap out₁.at (omega arith) ∙ p.values j (rw (← whole) h)) in
      let off : (i : ℕ) → n ≤ i → (j : ℕ) → j < 2 ^ k → i ≢ 0 + 1 * j =
        λ i past j h e. omega (arith, whole, past, h, e) in
      (
        r.buf',
        r.out',
        rw copied r.returned,
        (λ j h. ap r.buf'.at (omega arith) ∙ r.values j (rw whole h)),
        λ i h. (r.off_buf i (off i h), r.off_out i (off i h) ∙ p.rest i h),
      )
