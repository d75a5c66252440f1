-- ===== src/Fft/Butterfly.antt =====
-- The loop of `_fft`: it puts together two transforms of half the length.
use ptr24_lab.Prelude.{
  ℕ, suc, ◌+◌, ◌-◌, ◌*◌, ◌/◌, ◌^◌, ◌<◌, ◌≤◌, ◌≡◌, ◌≢◌, refl, sym, ap, ◌∙◌, Bool-cases, inl, inr, ok,
  ltb, lt→ltb, ltb→lt, ◌==◌, arith, div-of_parts,
}
use native.Mathlib.Nat.{mul-lt-mul_of_pos_left}
use ptr24_lab.Prelude.{◌⊎◌}
use ptr24_lab.Prelude.Loop.{for_range, for_range_inv, rounds}
use ptr24_lab.Fft.{Complexes, Block, put_at, butterfly}
use ptr24_lab.Fft.Reference.{joined, sum_of, difference_of}

module _ {A : Type 0} where
  pub put_at_self : (f : ℕ → A) (i : ℕ) (v : A) → put_at f i v i ≡ v
  put_at_self f i v = ground arith

  pub put_at_ne : (f : ℕ → A) (i : ℕ) (v : A) (j : ℕ) → j ≢ i → put_at f i v j ≡ f j
  put_at_ne f i v j ne = ground arith

  module _ (f : ℕ → A) (l r : ℕ) (v w : A) where
    put_left : (k : ℕ) → k ≡ l → l ≢ r → put_at (put_at f l v) r w k ≡ v
    put_left k e ne = ground arith

    put_right : (k : ℕ) → k ≡ r → put_at (put_at f l v) r w k ≡ w
    put_right k e = ground arith

    put_off : (k : ℕ) → k ≢ l → k ≢ r → put_at (put_at f l v) r w k ≡ f k
    put_off k ne ne' = ground arith

mul_lt : (a b s : ℕ) → a * s < b * s → a < b
mul_lt a b s h = grind arith

pub mul_le : (a b s : ℕ) → a ≤ b → a * s ≤ b * s
mul_le a b s h = grind arith

-- Different places of a progression.
pub place_ne : (o step i j : ℕ) → 0 < step → i ≢ j → o + step * i ≢ o + step * j
place_ne o step i j pos ne e =
    let apart : (i < j) ⊎ (j < i) = omega (arith, ne) in
    elim apart [
      | inl less ↦ omega (arith, mul-lt-mul_of_pos_left {k = step} less pos)
      | inr more ↦ omega (arith, mul-lt-mul_of_pos_left {k = step} more pos)
    ]

module _ (c : Complexes) (o n step half : ℕ) (out buf : Block c.C) (pos : 0 < step)
    (low_o : o < step) (whole : half * (2 * step) ≡ n) (fits_out : n ≤ out.size)
    (fits_buf : n ≤ buf.size) (small : n ≤ 2 ^ 30) where
  -- The values of pair `j`.
  abbrev pub first : ℕ → c.C
  first j = out.at (o + j * (2 * step))

  abbrev pub second : ℕ → c.C
  second j = out.at (o + (j * (2 * step) + step))

  -- After the rounds for the first `q` pairs.
  record Paired (i : ℕ) (b : Block c.C) : Type 0 where
    pub q : ℕ
    pub at_q : i ≡ q * (2 * step)
    pub within : q ≤ half
    pub same_size : b.size ≡ buf.size
    pub low :
        (j : ℕ) → j < q → b.at (o + step * j) ≡ sum_of c n (first j) (second j) (j * (2 * step))
    pub high :
        (j : ℕ)
        → j < q
        → b.at (o + step * (half + j)) ≡ difference_of c n (first j) (second j) (j * (2 * step))
    pub rest : (i : ℕ) → ((j : ℕ) → j < 2 * half → i ≢ o + step * j) → b.at i ≡ buf.at i

  keep_pair :
      (i : ℕ) (b : Block c.C)
      → i < n
      → Paired i b
      → (t : Block c.C) × (butterfly c o n step out i b ≡ ok t) × Paired (i + 2 * step) t
  unfolding butterfly
  keep_pair i b h p =
      let q : ℕ = p.q in
      let less : q < half = mul_lt q half (2 * step) (omega (arith, p.at_q)) in
      let room : suc q * (2 * step) ≤ half * (2 * step) = mul_le (suc q) half (2 * step) less in
      let left : o + i / 2 ≡ o + step * q = omega (arith, p.at_q) in
      let right : o + (i + n) / 2 ≡ o + step * (half + q) = omega (arith, p.at_q) in
      let in_x : o + (i + step) < out.size = omega (arith, p.at_q) in
      let in_y : o + i < out.size = omega (arith, p.at_q) in
      let in_l : o + i / 2 < b.size = omega (arith, p.at_q, p.same_size) in
      let in_r : o + (i + n) / 2 < b.size = omega (arith, p.at_q, p.same_size) in
      let in_sum : i + n < 2 ^ 31 = omega (arith, small) in
      let in_next : i + 2 * step < 2 ^ 31 = omega (arith, p.at_q, whole, room, small) in
      let v = sum_of c n (out.at (o + i)) (out.at (o + (i + step))) i in
      let w = difference_of c n (out.at (o + i)) (out.at (o + (i + step))) i in
      let ends_ne : o + i / 2 ≢ o + (i + n) / 2 =
        rw (left, right) (place_ne o step q (half + q) pos (omega (arith, less))) in
      let pair_at : (j : ℕ) → j ≡ q → i ≡ j * (2 * step) =
        λ j e. p.at_q ∙ ap (λ k. k * (2 * step)) (sym e) in
      let new_sum : (j : ℕ) → j ≡ q → v ≡ sum_of c n (first j) (second j) (j * (2 * step)) =
        λ j e. ap (λ k. sum_of c n (out.at (o + k)) (out.at (o + (k + step))) k) (pair_at j e) in
      let new_difference : (j : ℕ)
          → j ≡ q
          → w ≡ difference_of c n (first j) (second j) (j * (2 * step)) =
        λ j e.
          ap (λ k. difference_of c n (out.at (o + k)) (out.at (o + (k + step))) k) (pair_at j e) in
      let t : Block c.C = record b {
        at = put_at (put_at b.at (o + i / 2) v) (o + (i + n) / 2) w;
      } in
      (
        t,
        rw
            (
              lt→ltb _ _ in_x,
              lt→ltb _ _ in_y,
              lt→ltb _ _ in_l,
              lt→ltb _ _ in_sum,
              lt→ltb _ _ in_r,
              lt→ltb _ _ in_next,
            )
            refl,
        record {
          q = q + 1;
          at_q = omega (arith, p.at_q);
          within = omega (arith, less);
          same_size = p.same_size;
          low = λ j hj. elim (Bool-cases (j == q)) [
            | inl here ↦
                let e : j ≡ q = ground arith in
                put_left b.at (o + i / 2) (o + (i + n) / 2) v w (o + step * j)
                  (ap (λ k. o + step * k) e ∙ sym left) ends_ne
                ∙ new_sum j e
            | inr before ↦
                let lt : j < q = ground arith in
                put_off b.at (o + i / 2) (o + (i + n) / 2) v w (o + step * j)
                  (rw left (place_ne o step j q pos (omega (arith, lt))))
                  (rw right (place_ne o step j (half + q) pos (omega (arith, lt, less))))
                ∙ p.low j lt
          ];
          high = λ j hj. elim (Bool-cases (j == q)) [
            | inl here ↦
                let e : j ≡ q = ground arith in
                put_right b.at (o + i / 2) (o + (i + n) / 2) v w (o + step * (half + j))
                  (ap (λ k. o + step * (half + k)) e ∙ sym right)
                ∙ new_difference j e
            | inr before ↦
                let lt : j < q = ground arith in
                put_off b.at (o + i / 2) (o + (i + n) / 2) v w (o + step * (half + j))
                  (rw left (place_ne o step (half + j) q pos (omega (arith, lt, less))))
                  (rw right (place_ne o step (half + j) (half + q) pos (omega (arith, lt))))
                ∙ p.high j lt
          ];
          rest = λ k off.
              put_off b.at (o + i / 2) (o + (i + n) / 2) v w k
                (rw left (off q (omega (arith, less))))
                (rw right (off (half + q) (omega (arith, less))))
              ∙ p.rest k off;
        },
      )

  rounds_lem : rounds n (2 * step) ≡ half
  rounds_lem =
      let e : n + 2 * step - 1 ≡ half * (2 * step) + (2 * step - 1) = omega (arith, whole) in
      rw e (div-of_parts half (2 * step) (2 * step - 1) (omega arith))

  -- The whole loop: places `step * j` past `o` hold the sums, and those half of the length further the
  -- differences.
  loop_Paired :
      (t : Block c.C) × (for_range (2 * step) (butterfly c o n step out) (rounds n (2 * step)) 0 buf
        ≡ ok t)
      × Paired n t
  loop_Paired =
      for_range_inv (2 * step) (butterfly c o n step out) Paired n keep_pair (rounds n (2 * step)) 0
        buf (omega arith) (rw rounds_lem (omega (arith, whole)))
        (record {
          q = 0;
          at_q = omega arith;
          within = omega arith;
          same_size = refl;
          low = λ j h. absurd (omega arith);
          high = λ j h. absurd (omega arith);
          rest = λ k off. refl;
        })

  paired_full : (q : ℕ) → n ≡ q * (2 * step) → q ≤ half → q ≡ half
  paired_full q e h =
      let not_less : ¬ (q < half) = λ less.
        place_ne 0 (2 * step) q half (omega arith) (omega (arith, less))
          (omega (arith, e, whole)) in
      omega (arith, h, not_less)

  -- What the loop leaves at the places of the call.
  joined_lem :
      (t : Block c.C)
      → Paired n t
      → (j : ℕ) → j < 2 * half
      → t.at (o + step * j) ≡ joined c n half step first second j
  joined_lem t p j h =
      let full : p.q ≡ half = paired_full p.q p.at_q p.within in
      elim (Bool-cases (ltb j half)) [
        | inl low ↦
            let less : j < p.q = rw full (ltb→lt _ _ low) in
            let place : j * (2 * step) ≡ 2 * step * j = omega arith in
            rw low (p.low j less ∙ ap (λ i. sum_of c n (first j) (second j) i) place)
        | inr high ↦
            let m : ℕ = j - half in
            let less : m < p.q = rw full (ground arith) in
            let place : m * (2 * step) ≡ 2 * step * m = omega arith in
            let back : j ≡ half + m = ground arith in
            rw high (
              ap (λ i. t.at (o + step * i)) back
              ∙ p.high m less
              ∙ ap (λ i. difference_of c n (first m) (second m) i) place)
      ]

  pub record Joined (t : Block c.C) : Type 0 where
    pub same_size : t.size ≡ buf.size
    pub values : (j : ℕ) → j < 2 * half → t.at (o + step * j) ≡ joined c n half step first second j
    pub rest : (i : ℕ) → ((j : ℕ) → j < 2 * half → i ≢ o + step * j) → t.at i ≡ buf.at i

  pub loop_Joined :
      (t : Block c.C) × (for_range (2 * step) (butterfly c o n step out) (rounds n (2 * step)) 0 buf
        ≡ ok t)
      × Joined t
  loop_Joined =
      let (t, runs, p) = loop_Paired in
      (t, runs, record { same_size = p.same_size; values = joined_lem t p; rest = p.rest })
